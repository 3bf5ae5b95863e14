-- ===== src/Device/Select.antt =====
-- The loops of fs/zbd_zenfs.cc that choose one of the io zones. They share one shape, which is
-- written here once: acquire each zone in turn, keep the best so far held, and release every other.
pub mod Rule
pub mod Optimal
pub mod Choices
use zenfs.Base.{
  ℕ, Bool, true, false, not, ◌&&◌, ◌||◌, Option, none, some, if◌then◌else◌, ltb, leb, ◌==◌, ◌/◌,
  length, get_elem?,
}
use zenfs.Base.Loop.{Flow, next, leave, for_range}
use zenfs.Base.Words.{mul64}
use zenfs.Status.{Status, is_ok}
use zenfs.Zone.{
  Zone, is_full, is_empty, get_zone_reclaimable_space, get_life_time_diff, lifetime_diff_not_good,
  wlth_short,
}
use zenfs.Device.State.{Zbd, io, acquire_at, check_release_at}
use zenfs.Device.Tokens.{put_open_io_zone_token}

-- The zone held so far, and its score.
pub record Held : Type 0 where
  pub zone : Option ℕ
  pub score : ℕ

-- How a choice ends: with a zone held or none, or by a failed release.
pub data Chosen (D F : Type 0) : Type 0 where
  chosen : Held → Zbd D F → Chosen D F
  failed : Status → Zbd D F → Chosen D F

-- What tells the loops apart.
pub record Choice (D F : Type 0) : Type 0 where
  -- Whether to take a zone in place of the one held (if any), and the new score.
  pub better : Zone → Option Zone → ℕ → Option ℕ
  -- Whether the loop stops once it holds a zone of that score.
  pub last : ℕ → Bool
  -- What it does when the release of the held zone fails; the position is the new zone's.
  pub held_failed : ℕ → Status → Zbd D F → Status × Zbd D F
  -- What it does to the device when the release of the new zone fails.
  pub new_failed : Zbd D F → Zbd D F

abbrev count_against : (ℕ → ℕ → Bool) → Zone → Option Zone → Option ℕ
count_against test z none = if is_empty z then some z.reset_count else none
count_against test z (some h) =
    if is_empty z && test z.reset_count h.reset_count then some z.reset_count else none

abbrev less_room : Zone → Option Zone → Option ℕ
less_room z none = if is_empty z || is_full z then none else some z.capacity
less_room z (some h) =
    if is_empty z || is_full z
    then none
    else if ltb z.capacity h.capacity
    then some z.capacity
    else none

abbrev score_against : ℕ → Zone → Option Zone → ℕ → Bool
score_against score z none best = true
score_against score z (some h) best =
    ltb best score || (score == best && ltb h.reset_count z.reset_count)

module _ {D F : Type 0} where
  abbrev pub held_zone : Held → Zbd D F → Option Zone
  held_zone h s = elim h.zone [ none ↦ none | some j ↦ get_elem? s.io_zones j ]

  -- `s_ = z->CheckRelease(); if (!s_.ok()) return s_; return s;`
  unfoldable pub release_new : ℕ → Status → Zbd D F → Status × Zbd D F
  unfolding check_release_at
  release_new i st s =
      let (st', s') = check_release_at (io i) s in if is_ok st' then (st, s') else (st', s')

  -- The new zone, at `i`, takes the place of the one held.
  abbrev take_over : Choice D F → ℕ → ℕ → Option ℕ → Zbd D F → Flow (Held × Zbd D F) (Chosen D F)
  take_over c i score none s =
      if c.last score
      then leave (chosen (record { zone = some i; score = score }) s)
      else next (record { zone = some i; score = score }, s)
  take_over c i score (some j) s =
      let (st, s') = check_release_at (io j) s in
      if is_ok st
      then (if c.last score
          then leave (chosen (record { zone = some i; score = score }) s')
          else next (record { zone = some i; score = score }, s'))
      else (let (st', s'') = c.held_failed i st s' in leave (failed st' s''))

  abbrev pass_by : Choice D F → ℕ → Held → Zbd D F → Flow (Held × Zbd D F) (Chosen D F)
  pass_by c i h s =
      let (st, s') = check_release_at (io i) s in
      if is_ok st then next (h, s') else leave (failed st (c.new_failed s'))

  abbrev take_or_pass :
      Choice D F → ℕ → Held → Zbd D F → Option ℕ → Flow (Held × Zbd D F) (Chosen D F)
  take_or_pass c i h s none = pass_by c i h s
  take_or_pass c i h s (some score) = take_over c i score h.zone s

  unfoldable pub choose_body : Choice D F → ℕ → Held × Zbd D F → Flow (Held × Zbd D F) (Chosen D F)
  unfolding acquire_at check_release_at
  choose_body c i (h, s) = elim (get_elem? s.io_zones i) [
    | none ↦ next (h, s)
    | some z ↦
        let (got, s') = acquire_at (io i) s in
        if got then take_or_pass c i h s' (c.better z (held_zone h s') h.score) else next (h, s')
  ]

  abbrev ended : Flow (Held × Zbd D F) (Chosen D F) → Chosen D F
  ended (next (h, s)) = chosen h s
  ended (leave c) = c

  unfoldable pub choose : Choice D F → ℕ → Zbd D F → Chosen D F
  unfolding choose_body for_range
  choose c score s =
      ended
        (for_range (length s.io_zones) 0 (choose_body c) (record { zone = none; score = score }, s))

  -- The body of `GetBestOpenZoneMatch`; the score is `best_diff`.
  unfoldable pub best_open_zone : ℕ → ℕ → Choice D F
  unfolding get_life_time_diff release_new
  best_open_zone file_lifetime min_capacity = record {
    better = λ z held best_diff.
        if ltb 0 z.used_capacity && not (is_full z) && leb min_capacity z.capacity
        then (let diff = get_life_time_diff z.lifetime file_lifetime in
            if leb diff best_diff then some diff else none)
        else none;
    last = λ _. false;
    held_failed = release_new;
    new_failed = λ s. s;
  }

  -- `AllocateEmptyZone(Zone **)`: the first empty zone.
  unfoldable pub first_empty_zone : Choice D F
  unfolding release_new
  first_empty_zone = record {
    better = λ z held _. if is_empty z then some 0 else none;
    last = λ _. true;
    held_failed = release_new;
    new_failed = λ s. s;
  }

  -- `AllocateEmptyZone(file_lifetime, Zone **)`: short-lived data goes to the most worn empty zone,
  -- other data to the least worn. The score is the zone's reset count.
  unfoldable pub empty_zone_for : ℕ → Choice D F
  unfolding release_new
  empty_zone_for file_lifetime =
      if ltb file_lifetime wlth_short
      then record {
        better = λ z held _. count_against (λ a b. ltb b a) z held;
        last = λ _. false;
        held_failed = release_new;
        new_failed = λ s. s;
      }
      else record {
        better = λ z held _. count_against ltb z held;
        last = λ reset_count. reset_count == 0;
        held_failed = release_new;
        new_failed = λ s. s;
      }

  -- The loop of `FinishCheapestIOZone`; the score is the room left.
  unfoldable pub cheapest_zone : Choice D F
  cheapest_zone = record {
    better = λ z held _. less_room z held;
    last = λ _. false;
    held_failed = λ _ st s. (st, s);
    new_failed = λ s. s;
  }

  abbrev put_token_after : Status × Zbd D F → Status × Zbd D F
  put_token_after (st, s) = (st, put_open_io_zone_token s)

  -- The first loop of `GetMigrateTargetZone`: the most worn empty zone. Its error returns give the
  -- open token back.
  unfoldable pub worn_empty_zone : Choice D F
  unfolding release_new put_open_io_zone_token
  worn_empty_zone = record {
    better = λ z held _. count_against (λ a b. ltb b a) z held;
    last = λ _. false;
    held_failed = λ i st s. put_token_after (release_new i st s);
    new_failed = put_open_io_zone_token;
  }

  -- The second loop of `GetMigrateTargetZone`.
  unfoldable pub worn_open_zone : ℕ → ℕ → Choice D F
  unfolding get_life_time_diff get_zone_reclaimable_space release_new
  worn_open_zone file_lifetime min_capacity = record {
    better = λ z held best.
        if ltb 0 z.used_capacity && not (is_full z) && leb min_capacity z.capacity
        then (let score = mul64 z.reset_count (get_zone_reclaimable_space z) / z.max_capacity in
            if score_against score z held best
              && not (get_life_time_diff z.lifetime file_lifetime == lifetime_diff_not_good)
            then some score
            else none)
        else none;
    last = λ _. false;
    held_failed = release_new;
    new_failed = λ s. s;
  }

  -- `GetBestOpenZoneMatch`: the zone, and `best_diff` as its score.
  unfoldable pub get_best_open_zone_match : ℕ → ℕ → Zbd D F → Chosen D F
  unfolding choose best_open_zone
  get_best_open_zone_match file_lifetime min_capacity s =
      choose (best_open_zone file_lifetime min_capacity) lifetime_diff_not_good s

  unfoldable pub allocate_first_empty_zone : Zbd D F → Chosen D F
  unfolding choose first_empty_zone
  allocate_first_empty_zone s = choose first_empty_zone 0 s

  unfoldable pub allocate_empty_zone : ℕ → Zbd D F → Chosen D F
  unfolding choose empty_zone_for
  allocate_empty_zone file_lifetime s = choose (empty_zone_for file_lifetime) 0 s
