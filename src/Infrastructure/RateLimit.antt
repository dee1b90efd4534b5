-- ===== src/Infrastructure/RateLimit.antt =====
-- project/src/infrastructure/rate-limit.ts: the fixed-window limiter of one process.
use cogeto.Base.{
  ℕ, suc, ◌+◌, ◌*◌, ◌-◌, ◌/◌, ◌≤◌, ◌<◌, ◌≡◌, refl, min, max, arith, String, false, Option, none,
  some, List, [], ◌∷◌, if◌then◌else◌, leb, length, All, ◌==◌, inl, inr, Bool-cases, str_eq,
}
use cogeto.Base.StringMap.{lookup, put, lookup-put_same}
use Prim.Native.String.{◌++◌ as text_append}

pub record WindowState : Type 0 where
  pub count : ℕ
  pub reset_at : ℕ

abbrev pub Windows : Type 0
Windows = List (String × WindowState)

-- Admitted, or refused with the seconds to wait.
pub data Verdict : Type 0 where
  admitted : Verdict
  too_many : (retry_after : ℕ) → Verdict

-- `Math.max(1, Math.ceil((resetAt - now) / 1000))`.
abbrev pub retry_after : ℕ → ℕ → ℕ
retry_after reset_at now = max 1 ((reset_at - now + 999) / 1000)

abbrev pub window_key : String → String → String
window_key bucket user = text_append (text_append bucket ":") user

abbrev count_in : ℕ → String → ℕ → Windows → WindowState → Windows × Verdict
count_in limit key now windows state =
    if leb limit state.count
    then (windows, too_many (retry_after state.reset_at now))
    else (put key (record state { count = suc state.count }) windows, admitted)

abbrev open_window : String → ℕ → ℕ → Windows → Windows × Verdict
open_window key window_seconds now windows =
    (put key (record { count = 1; reset_at = now + window_seconds * 1000 }) windows, admitted)

abbrev count_at : ℕ → ℕ → String → ℕ → Windows → Option WindowState → Windows × Verdict
count_at limit window_seconds key now windows none = open_window key window_seconds now windows
count_at limit window_seconds key now windows (some state) =
    if leb state.reset_at now
    then open_window key window_seconds now windows
    else count_in limit key now windows state

abbrev for_user : ℕ → ℕ → String → Option String → ℕ → Windows → Windows × Verdict
for_user limit window_seconds bucket none now windows = (windows, admitted)
for_user limit window_seconds bucket (some user) now windows =
    if str_eq user ""
    then (windows, admitted)
    else count_at limit window_seconds (window_key bucket user) now windows
        (lookup (window_key bucket user) windows)

-- One request: `limits` gives each bucket its cap, and 0 is no cap.
unfoldable pub can_activate :
    (limits : String → ℕ)
    → (window_seconds : ℕ) → (bucket user : Option String) → (now : ℕ) → Windows
    → Windows × Verdict
can_activate limits window_seconds none user now windows = (windows, admitted)
can_activate limits window_seconds (some bucket) user now windows =
    if limits bucket == 0
    then (windows, admitted)
    else for_user (limits bucket) window_seconds bucket user now windows

abbrev is_admitted : Verdict → ℕ
is_admitted admitted = 1
is_admitted (too_many _) = 0

-- How many of a user's requests to a bucket are admitted.
unfoldable pub admissions : (limits : String → ℕ) → ℕ → String → String → List ℕ → Windows → ℕ
admissions limits window_seconds bucket user [] windows = 0
admissions limits window_seconds bucket user (now ∷ times) windows =
    let outcome = can_activate limits window_seconds (some bucket) (some user) now windows in
    is_admitted outcome.1 + admissions limits window_seconds bucket user times outcome.0

-- A user who waits for the seconds that a refusal names finds the window over.
pub retry_after_lem : (reset_at now : ℕ) → reset_at ≤ now + retry_after reset_at now * 1000
retry_after_lem reset_at now = omega arith

module _ (limits : String → ℕ) (window_seconds : ℕ) (bucket user : String)
    (limited : (limits bucket == 0) ≡ false) (named : str_eq user "" ≡ false) where
  step_open :
      (now : ℕ) (windows : Windows)
      → lookup (window_key bucket user) windows ≡ none
      → can_activate limits window_seconds (some bucket) (some user) now windows
        ≡ open_window (window_key bucket user) window_seconds now windows
  unfolding can_activate
  step_open now windows absent = rw limited (rw named (rw absent refl))

  step_in :
      (now : ℕ) (windows : Windows) (state : WindowState)
      → lookup (window_key bucket user) windows ≡ some state
      → now < state.reset_at
      → can_activate limits window_seconds (some bucket) (some user) now windows
        ≡ count_in (limits bucket) (window_key bucket user) now windows state
  unfolding can_activate
  step_in now windows state there early =
      let still : leb state.reset_at now ≡ false = ground (arith, early) in
      rw limited (rw named (rw there (rw still refl)))

  admissions_in :
      (times : List ℕ) (windows : Windows) (state : WindowState)
      → lookup (window_key bucket user) windows ≡ some state
      → All (λ t. t < state.reset_at) times
      → admissions limits window_seconds bucket user times windows
        ≡ min (length times) (limits bucket - state.count)
  unfolding admissions
  admissions_in [] windows state there early = omega arith
  admissions_in (now ∷ times) windows state there early =
      elim (Bool-cases (leb (limits bucket) state.count)) [
        | inl e ↦
            let rest = admissions_in times windows state there early.1 in
            rw (step_in now windows state there early.0) (rw e (ground (arith, rest, e)))
        | inr e ↦
            let more : WindowState = record state { count = suc state.count } in
            let rest =
              admissions_in times (put (window_key bucket user) more windows) more
                (lookup-put_same (window_key bucket user) more windows) early.1 in
            rw (step_in now windows state there early.0) (rw e (ground (arith, rest, e)))
      ]

-- In a window that a named user's first request to a limited bucket opens, exactly the bucket's cap
-- of requests is admitted, or all of them where they are fewer.
pub admissions_lem :
    (limits : String → ℕ) (window_seconds : ℕ) (bucket user : String) (start : ℕ) (times : List ℕ)
    (windows : Windows)
    → (limits bucket == 0) ≡ false
    → str_eq user "" ≡ false
    → lookup (window_key bucket user) windows ≡ none
    → All (λ t. t < start + window_seconds * 1000) times
    → admissions limits window_seconds bucket user (start ∷ times) windows
      ≡ min (suc (length times)) (limits bucket)
unfolding admissions
admissions_lem limits window_seconds bucket user start times windows limited named absent early =
    let opened : WindowState = record { count = 1; reset_at = start + window_seconds * 1000 } in
    let rest =
      admissions_in limits window_seconds bucket user limited named times
        (put (window_key bucket user) opened windows) opened
        (lookup-put_same (window_key bucket user) opened windows) early in
    rw (step_open limits window_seconds bucket user limited named start windows absent)
      (ground (arith, rest, limited))
