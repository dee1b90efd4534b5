-- ===== src/Infrastructure/Counters.antt =====
-- project/src/infrastructure/daily-counters.ts and model-budget.ts. A day is a number.
use cogeto.Base.{
  ℕ, ◌+◌, ◌≡◌, ◌≢◌, refl, arith, String, Bool, true, false, Option, none, some, List, [],
  if◌then◌else◌, ◌&&◌, ◌==◌, ltb, or_else, ==_refl, Bool-cases, sym, inl, inr, ◌∙◌, ap,
}
use cogeto.Base.StringMap.{lookup, put, lookup-put_same, lookup-put_other}
use text.Mathlib.TextLemmas.{append_assoc, cons-append, append_cancel_left, head-eq_of_cons-eq}
use Prim.Native.Char.{Char, code}
use Prim.Native.String.{◌++◌ as text_append}

pub record Counters : Type 0 where
  pub day : Option ℕ
  pub counts : List (String × ℕ)

abbrev is_today : ℕ → Option ℕ → Bool
is_today today none = false
is_today today (some day) = day == today

-- A new day forgets the counts.
unfoldable pub roll : ℕ → Counters → Counters
roll today c = if is_today today c.day then c else record { day = some today; counts = [] }

abbrev pub counter_key : String → String → String
counter_key user bucket = text_append (text_append bucket ":") user

unfoldable pub get_count : ℕ → String → String → Counters → ℕ
get_count today user bucket c = or_else (lookup (counter_key user bucket) (roll today c).counts) 0

unfoldable pub add_count : ℕ → String → String → ℕ → Counters → Counters
add_count today user bucket n c =
    let rolled = roll today c in
    record rolled {
      counts =
          put (counter_key user bucket)
            (or_else (lookup (counter_key user bucket) rolled.counts) 0 + n) rolled.counts;
    }

pub record ModelBudget : Type 0 where
  pub daily_calls : ℕ
  pub daily_tokens : ℕ

abbrev pub calls : String
calls = "model_calls"

abbrev pub tokens : String
tokens = "model_tokens"

unfoldable pub has_budget : ModelBudget → ℕ → String → Counters → Bool
has_budget limits today user c =
    ltb (get_count today user calls c) limits.daily_calls
    && ltb (get_count today user tokens c) limits.daily_tokens

unfoldable pub record_usage : ℕ → String → ℕ → Counters → Counters
record_usage today user n c = add_count today user tokens n (add_count today user calls 1 c)

roll-today : (today : ℕ) (c : Counters) → is_today today (roll today c).day ≡ true
unfolding roll
roll-today today c = elim (Bool-cases (is_today today c.day)) [
  | inl e ↦ rw e e
  | inr e ↦ rw e (==_refl today)
]

roll_idem : (today : ℕ) (c : Counters) → is_today today c.day ≡ true → roll today c ≡ c
unfolding roll
roll_idem today c e = rw e refl

-- A count of the day grows by what is added to it.
pub get_count-add_count :
    (today : ℕ) (user bucket : String) (n : ℕ) (c : Counters)
    → get_count today user bucket (add_count today user bucket n c)
      ≡ get_count today user bucket c + n
unfolding get_count add_count
get_count-add_count today user bucket n c =
    rw (roll_idem today (add_count today user bucket n c) (roll-today today c))
      (ap (λ o. or_else o 0) (lookup-put_same (counter_key user bucket) _ (roll today c).counts))

-- And it does not depend on the other counts.
pub get_count-add_other :
    (today : ℕ) (user bucket user' bucket' : String) (n : ℕ) (c : Counters)
    → counter_key user' bucket' ≢ counter_key user bucket
    → get_count today user bucket (add_count today user' bucket' n c)
      ≡ get_count today user bucket c
unfolding get_count add_count
get_count-add_other today user bucket user' bucket' n c ne =
    rw (roll_idem today (add_count today user' bucket' n c) (roll-today today c)) (
      ap (λ o. or_else o 0)
        (lookup-put_other (counter_key user' bucket') (counter_key user bucket) _
          (roll today c).counts ne))

-- The two buckets share no key, whoever the users are.
buckets_apart : (user user' : String) → counter_key user' tokens ≢ counter_key user calls
buckets_apart user user' e =
    let tails : text_append "tokens:" user' ≡ text_append "calls:" user =
      append_cancel_left "model_" (text_append "tokens:" user') (text_append "calls:" user)
        (sym (append_assoc "model_" "tokens:" user') ∙ e ∙ append_assoc "model_" "calls:" user) in
    let heads : t ≡ c =
      head-eq_of_cons-eq
        (sym (cons-append t "okens:" user') ∙ tails ∙ cons-append c "alls:" user) in
    let codes : 116 ≡ 99 = ap code heads in absurd (omega (arith, codes))
  where
    t : Char
    t = "t"

    c : Char
    c = "c"

-- And one bucket has one key for each user.
users_apart :
    (user user' : String) → user' ≢ user → counter_key user' calls ≢ counter_key user calls
users_apart user user' ne e = ne (append_cancel_left (text_append calls ":") user' user e)

-- A completed call of a user is one more call of the day.
pub usage_calls :
    (today : ℕ) (user : String) (n : ℕ) (c : Counters)
    → get_count today user calls (record_usage today user n c) ≡ get_count today user calls c + 1
unfolding record_usage
usage_calls today user n c =
    get_count-add_other today user calls user tokens n (add_count today user calls 1 c)
      (buckets_apart user user)
    ∙ get_count-add_count today user calls 1 c

-- The completed calls of one user do not count for another.
pub usage_others :
    (today : ℕ) (user user' : String) (n : ℕ) (c : Counters)
    → user' ≢ user
    → get_count today user calls (record_usage today user' n c) ≡ get_count today user calls c
unfolding record_usage
usage_others today user user' n c ne =
    get_count-add_other today user calls user' tokens n (add_count today user' calls 1 c)
      (buckets_apart user user')
    ∙ get_count-add_other today user calls user' calls 1 c (users_apart user user' ne)
