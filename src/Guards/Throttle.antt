-- ===== src/Guards/Throttle.antt =====
-- `InMemoryThrottlerStorage` and `ThrottlerGuard` of nivasa-guards/src/lib.rs. An `Instant` and a
-- `Duration` are numbers of nanoseconds; the time of a call is an argument. `duration_since` stops at
-- zero, as subtraction does here. A `u32` is below `2 ^ 32`.
pub mod Window
use nivasa.Prelude.{
  and_then, ltb, leb, ◌==◌, if◌then◌else◌, ==_iff, ==_refl, Bool-cases, Option-cases, is_some,
  is_none, length, is_empty, first, last, pop, pop-snoc, get_elem?, any, all, find, keep, replicate,
  length-append, All, All-append, All-map, Result, ◌>>=◌, map_err, Result-cases, >>=-eq-ok,
  ok-injective, ok, err, Text, codes, text_eq, text_eq_iff, text_eq_refl, strip_prefix, ends_with,
  starts_with, upper_char, to_ascii_uppercase, split, join, join_with, Lacks, split_whole,
  split-append, push_head-All, split-Lacks, keep-nonempty, is_whitespace, drop_while, drop_end,
  trim_start_matches, trim_end_matches, trim_matches, trim, ends_without, begins_without,
  drop_while_id, drop_end_id, last-drop_end, first-drop_while, last-append, trim_id, cmp_text,
  get_text, put_text, get_text-put_text, get_text-put_text_other, Below, insert_by, sort_by,
  IsSortedBy, insert_by-perm, sort_by-perm, IsPreorder, sort_by-IsSortedBy, mem, insert_set,
  remove_set, remove_set_fresh, remove_set_head, lookup, insert_map, keys, mem-keys,
  lookup-insert_map, count_outside, count_outside-le, count_outside-lt, Run, and_run, done, fail,
  and_run-eq-done, and_run-ne-none, ℕ, zero, suc, ◌+◌, ◌-◌, ◌*◌, ◌≤◌, ◌<◌, compare, Ordering, ◌≡◌,
  refl, sym, ap, ◌∙◌, subst, ◌≢◌, ◌↔◌, ◌⊎◌, inl, inr, Bool, true, false, ◌&&◌, ◌||◌, not, Option,
  none, some, List, [], ◌∷◌, ◌++◌, map, arith,
}
use mathlib.Core.Option
use Prim.Native.Nat.{◌%◌, ◌^◌}
use nivasa.Common.Request.{Json, RequestContext, custom_value}
use nivasa.Guards.Context.{ExecutionContext}

pub record ThrottleWindowState : Type 0 where
  pub started_at : ℕ
  pub count : ℕ

abbrev pub InMemoryThrottlerStorage : Type 0
InMemoryThrottlerStorage = List (Text × ThrottleWindowState)

abbrev pub u32_max : ℕ
u32_max = 4_294_967_295

-- `u32::saturating_add`.
abbrev pub saturating_add : ℕ → ℕ → ℕ
saturating_add a b = if leb (a + b) u32_max then a + b else u32_max

-- `or_insert_with` of a window that starts now.
abbrev pub window_or_new : ℕ → Option ThrottleWindowState → ThrottleWindowState
window_or_new now none = record { started_at = now; count = 0 }
window_or_new now (some window) = window

-- A window that has lasted `ttl` starts again.
unfoldable pub renewed : ℕ → ℕ → ThrottleWindowState → ThrottleWindowState
renewed ttl now window =
    if leb ttl (now - window.started_at) then record { started_at = now; count = 0 } else window

-- The count and the answer of a window that is open.
unfoldable pub count_request : ℕ → ThrottleWindowState → ThrottleWindowState × Bool
count_request limit window =
    if leb limit window.count
    then (window, false)
    else (record window { count = saturating_add window.count 1 }, true)

unfoldable pub allow : InMemoryThrottlerStorage → Text → ℕ → ℕ → ℕ → InMemoryThrottlerStorage × Bool
allow self key limit ttl now =
    let (window, allowed) =
      count_request limit (renewed ttl now (window_or_new now (get_text key self))) in
    if limit == 0 || ttl == 0 then (self, false) else (put_text key window self, allowed)

unfoldable pub throttler_snapshot : InMemoryThrottlerStorage → List (Text × ℕ)
throttler_snapshot self = map (λ (item : Text × ThrottleWindowState). (item.0, item.1.count)) self

-- The storage of the guard is the one above.
pub record ThrottlerGuard : Type 0 where
  pub limit : ℕ
  pub ttl : ℕ
  pub storage : InMemoryThrottlerStorage

abbrev pub or_text : Option Text → Text → Text
or_text none fallback = fallback
or_text (some t) fallback = t

abbrev pub or_number : Option ℕ → ℕ → ℕ
or_number none fallback = fallback
or_number (some n) fallback = n

unfoldable pub has_minimal_valid_configuration : ThrottlerGuard → Bool
has_minimal_valid_configuration self = ltb 0 self.limit && not (self.ttl == 0)

-- `Duration::from_secs`.
abbrev pub from_secs : ℕ → ℕ
from_secs n = n * 1_000_000_000

abbrev pub is_skipped : Option Bool → Bool
is_skipped none = false
is_skipped (some skip) = skip

module _ {Data Value Other : Type 0} (json : Json Value) where
  -- A custom value of the request, if there is a request context.
  abbrev pub request_value : ExecutionContext Data Value Other → Text → Option Value
  request_value context key = and_then context.request_context λ request. custom_value request key

  unfoldable pub throttle_key_from_context : ExecutionContext Data Value Other → Text
  throttle_key_from_context context =
      let part = λ (key fallback : Text).
        or_text (and_then (request_value context key) json.as_str) fallback in
      let request_key =
        part (codes "module_name") []
        ++ (b':'
            ∷ (part (codes "user_id") []
                ++ (b':'
                    ∷ (part (codes "request_method") (codes "UNKNOWN")
                        ++ (b':' ∷ part (codes "request_path") (codes "/")))))) in
      if is_some context.request_context then request_key else codes "global"

  -- `value as u32` keeps the lower 32 bits.
  unfoldable pub request_limit : ThrottlerGuard → ExecutionContext Data Value Other → ℕ
  request_limit self context =
      or_number
        (Option.map (λ value. value % 2 ^ 32)
          (and_then (request_value context (codes "throttle_limit")) json.as_u64))
        self.limit

  unfoldable pub request_ttl : ThrottlerGuard → ExecutionContext Data Value Other → ℕ
  request_ttl self context =
      or_number
        (Option.map from_secs
          (and_then (request_value context (codes "throttle_ttl_secs")) json.as_u64))
        self.ttl

  unfoldable pub allows_request :
      ThrottlerGuard → ExecutionContext Data Value Other → ℕ → ThrottlerGuard × Bool
  allows_request self context now =
      let skip =
        is_skipped (and_then (request_value context (codes "throttle_skip")) json.as_bool) in
      let (storage, allowed) =
        allow self.storage (throttle_key_from_context context) (request_limit self context)
          (request_ttl self context) now in
      if not (has_minimal_valid_configuration self)
      then (self, false)
      else if skip
      then (self, true)
      else (record self { storage = storage }, allowed)
