-- ===== src/Zone.antt =====
-- The class `Zone` of fs/zbd_zenfs.h and fs/zbd_zenfs.cc: what concerns one zone alone.
pub mod Valid
use zenfs.Base.{
  ℕ, zero, suc, ◌+◌, ◌-◌, ◌≡◌, Bool, true, false, not, ◌||◌, Option, none, some, List, drop, length,
  if◌then◌else◌, ltb, leb, ◌==◌,
}
use zenfs.Base.Words.{add64, sub64, add32}
use zenfs.Status.{Status, ok, no_space, io_error, corruption, is_ok}
use zenfs.Platform.{ZoneInfo, Platform, ResetReply, failed, was_reset}

-- `Env::WriteLifeTimeHint`, by RocksDB's numbering.
abbrev pub wlth_not_set : ℕ
wlth_not_set = 0

abbrev pub wlth_none : ℕ
wlth_none = 1

abbrev pub wlth_short : ℕ
wlth_short = 2

abbrev pub wlth_medium : ℕ
wlth_medium = 3

abbrev pub wlth_extreme : ℕ
wlth_extreme = 5

pub record Zone : Type 0 where
  pub busy : Bool
  pub start : ℕ
  pub capacity : ℕ
  pub max_capacity : ℕ
  pub wp : ℕ
  pub lifetime : ℕ
  pub used_capacity : ℕ
  pub reset_count : ℕ

unfoldable pub new_zone : ZoneInfo → Zone
new_zone i = record {
  busy = false;
  start = i.start;
  capacity = if i.is_writable then sub64 i.max_capacity (sub64 i.wp i.start) else 0;
  max_capacity = i.max_capacity;
  wp = i.wp;
  lifetime = wlth_not_set;
  used_capacity = 0;
  reset_count = 0;
}

abbrev pub is_used : Zone → Bool
is_used z = ltb 0 z.used_capacity

abbrev pub is_full : Zone → Bool
is_full z = z.capacity == 0

abbrev pub is_empty : Zone → Bool
is_empty z = z.wp == z.start

-- `Acquire` and `Release`: compare-and-swap on the busy flag; the flag says whether it succeeded.
unfoldable pub acquire : Zone → Bool × Zone
acquire z = if z.busy then (false, z) else (true, record z { busy = true })

unfoldable pub release : Zone → Bool × Zone
release z = if z.busy then (true, record z { busy = false }) else (false, z)

unfoldable pub check_release : Zone → Status × Zone
unfolding release
check_release z = let (released, z') = release z in if released then (ok, z') else (corruption, z')

unfoldable pub get_zone_reclaimable_space : Zone → ℕ
get_zone_reclaimable_space z =
    if is_full z
    then sub64 z.max_capacity z.used_capacity
    else sub64 (sub64 z.wp z.start) z.used_capacity

-- `GetLifeTimeDiff` and its two marks.
abbrev pub lifetime_diff_not_good : ℕ
lifetime_diff_not_good = 100

abbrev pub lifetime_diff_could_be_worse : ℕ
lifetime_diff_could_be_worse = 50

unfoldable pub get_life_time_diff : ℕ → ℕ → ℕ
get_life_time_diff zone_lifetime file_lifetime =
    if (file_lifetime == wlth_not_set) || (file_lifetime == wlth_none)
    then (if file_lifetime == zone_lifetime then 0 else lifetime_diff_not_good)
    else if ltb file_lifetime zone_lifetime
    then zone_lifetime - file_lifetime
    else if zone_lifetime == file_lifetime
    then lifetime_diff_could_be_worse
    else lifetime_diff_not_good

module _ {D F : Type 0} (p : Platform D F) where
  -- `Reset` up to the zone's own counter.
  abbrev after_reset : ResetReply → Zone → Status × Zone
  after_reset (failed s) z = (s, z)
  after_reset (was_reset offline max_capacity) z = (
    ok,
    record z {
      capacity = if offline then 0 else max_capacity;
      max_capacity = if offline then z.max_capacity else max_capacity;
      wp = z.start;
      lifetime = wlth_not_set;
      reset_count = add32 z.reset_count 1;
    },
  )

  unfoldable pub reset_zone : Zone → D → Status × Zone × D
  reset_zone z dev =
      let (reply, dev') = p.reset dev z.start in let (s, z') = after_reset reply z in (s, z', dev')

  unfoldable pub finish : Zone → D → Status × Zone × D
  finish z dev =
      let (ios, dev') = p.finish dev z.start in
      if is_ok ios
      then (ok, record z { capacity = 0; wp = add64 z.start p.zone_size }, dev')
      else (ios, z, dev')

  unfoldable pub close : Zone → D → Status × D
  close z dev = if is_empty z || is_full z then (ok, dev) else p.close dev z.start

  -- What an append leaves: the zone, the device and the count of bytes written.
  pub record Appended : Type 0 where
    pub status : Status
    pub zone : Zone
    pub dev : D
    pub written : ℕ

  -- The loop of `Append`. The fuel runs out only if the device takes no byte in some round.
  unfoldable pub append_loop : ℕ → List ℕ → Zone → D → ℕ → Option Appended
  append_loop zero buf z dev written = none
  append_loop (suc fuel) buf z dev written =
      if length buf == 0
      then some (record { status = ok; zone = z; dev = dev; written = written })
      else let (ret, dev') = p.write dev buf z.wp in
        elim ret [
          | none ↦ some (record { status = io_error; zone = z; dev = dev'; written = written })
          | some n ↦
              append_loop fuel (drop n buf)
                (record z { wp = add64 z.wp n; capacity = sub64 z.capacity n }) dev'
                (add64 written n)
        ]

  unfoldable pub append : List ℕ → Zone → D → ℕ → Option Appended
  unfolding append_loop
  append buf z dev written =
      if ltb z.capacity (length buf)
      then some (record { status = no_space; zone = z; dev = dev; written = written })
      else append_loop (suc (length buf)) buf z dev written
