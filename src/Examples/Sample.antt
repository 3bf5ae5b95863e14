-- ===== src/Examples/Sample.antt =====
-- A small device: 32 zones of 4096 bytes, whose backend keeps a count of the bytes written.
use zenfs.Base.{
  ℕ, zero, suc, ◌+◌, ◌*◌, ◌/◌, Bool, true, false, some, List, [], ◌∷◌, arith, length, ltb, ◌-◌,
}
use zenfs.Base.Int.{pos}
use zenfs.Status.{ok}
use zenfs.Platform.{ZoneInfo, Platform, Backend, was_reset, bytes, opened}
use zenfs.Zone.{Zone, wlth_medium}
use zenfs.Zone.Valid.{WritesSome}
use zenfs.Device.State.{Zbd}

abbrev info : ℕ → Bool → ZoneInfo
info start swr = record {
  is_swr = swr;
  is_offline = false;
  is_writable = true;
  is_active = false;
  is_open = false;
  start = start;
  max_capacity = 4096;
  wp = start;
}

abbrev infos_from : ℕ → ℕ → List ZoneInfo
infos_from zero start = []
infos_from (suc n) start = info start true ∷ infos_from n (start + 4096)

abbrev pub infos : List ZoneInfo
infos = info 0 false ∷ infos_from 31 4096

abbrev pub backend : Backend ℕ
backend = record {
  block_size = 512;
  zone_size = 4096;
  nr_zones = 32;
  open_device = λ d readonly exclusive. (opened 14 14, d);
  list_zones = λ d. some infos;
  reset = λ d start. (was_reset false 4096, d);
  finish = λ d start. (ok, d);
  close = λ d start. (ok, d);
  read = λ d pos size direct. (bytes [], d);
  write = λ d buf pos. (some (length buf), d + length buf);
  invalidate_cache = λ d pos size. (true, d);
}

abbrev pub platform : Platform ℕ ℕ
platform = record {
  double = record {
    of_ℕ = λ n. n;
    add = λ a b. a + b;
    sub = λ a b. a - b;
    mul = λ a b. a * b;
    div = λ a b. a / b;
    square = λ a. a * a;
    sqrt = λ a. a;
    gt = λ a b. ltb b a;
    one_and_a_half = 1;
  };
  backend = backend;
}

-- A zone at `start` with `written` bytes, of which `live` are live, and `count` resets.
abbrev pub zone_at : ℕ → ℕ → ℕ → ℕ → Zone
zone_at start written live count = record {
  busy = false;
  start = start;
  capacity = 4096 - written;
  max_capacity = 4096;
  wp = start + written;
  lifetime = wlth_medium;
  used_capacity = live;
  reset_count = count;
}

abbrev pub zbd_with : List Zone → Zbd ℕ ℕ
zbd_with zones = record {
  dev = 0;
  io_zones = zones;
  meta_zones = [];
  finish_threshold = 10;
  bytes_written = 0;
  gc_bytes_written = 0;
  active_io_zones = pos 2;
  open_io_zones = pos 1;
  zone_deferred_status = ok;
  migrating = false;
  max_nr_active_io_zones = 2;
  max_nr_open_io_zones = 4;
  wear = record {
    total_reset_count = 0;
    check_reset_count = 0;
    wl_trigger_count = 0;
    reset_ratio_threshold = 0;
    wl_worker_sleep = true;
    reset_std_dev_level = false;
  };
}

-- A zone with live data, one that is nearly full, and two empty ones.
abbrev pub zbd : Zbd ℕ ℕ
zbd =
    zbd_with (
      zone_at 0 1024 512 3
      ∷ zone_at 4096 4000 100 1
      ∷ zone_at 8192 0 0 5
      ∷ zone_at 12288 0 0 2
      ∷ [])

-- The same without the empty zones.
abbrev pub zbd_without_empty : Zbd ℕ ℕ
zbd_without_empty = zbd_with (zone_at 0 1024 512 3 ∷ zone_at 4096 4000 100 1 ∷ [])

-- All zones are full, and all tokens are taken.
abbrev pub zbd_full : Zbd ℕ ℕ
zbd_full = zbd_with (zone_at 0 4096 512 3 ∷ [])

pub backend-WritesSome : WritesSome backend
backend-WritesSome dev dev' buf at n some_bytes e = ground arith
