-- ===== src/Token/Estimate.antt =====
-- EstimateTokens and the conversions of internal/session/token.go.
use Prim.Native.Char.{code}
use Prim.Native.String.len
use Prim.Native.String.{◌++◌ as text_append}
use text.Mathlib.TextLemmas.{nil-append, cons-append}
use text.Mathlib.TextPositions.{len_utf8-pos}
use vibe_local_go.Base.{
  ℕ, suc, ◌+◌, ◌-◌, ◌*◌, ◌/◌, ◌≤◌, ◌<◌, String, len, ◌≡◌, refl, inl, inr, Bool, true, false, List,
  [], ◌∷◌, ◌++◌, arith, ◌==◌, ==_iff, codes, length, length-append, Bool-cases, if◌then◌else◌, ap,
  ◌∙◌,
}
use vibe_local_go.Token.{
  is_cjk, count_runes, estimate_tokens, estimate_tokens_from_chars, estimate_chars_from_tokens,
}

-- How many runes of a list are CJK.
abbrev pub cjk_in : List ℕ → ℕ
cjk_in [] = 0
cjk_in (r ∷ rs) = (if is_cjk r then 1 else 0) + cjk_in rs

pub cjk_in-le : (rs : List ℕ) → cjk_in rs ≤ length rs
cjk_in-le [] = omega arith
cjk_in-le (r ∷ rs) = ground (arith, cjk_in-le rs)

cjk_in-append : (rs ss : List ℕ) → cjk_in (rs ++ ss) ≡ cjk_in rs + cjk_in ss
cjk_in-append [] ss = omega arith
cjk_in-append (r ∷ rs) ss = omega (arith, cjk_in-append rs ss)

abbrev Counted : List ℕ → ℕ → ℕ → ℕ × ℕ → Type 0
Counted rs a b n = (n.0 ≡ a + cjk_in rs) × (n.1 + cjk_in rs ≡ b + length rs)

count_step :
    (c : Bool) (k l a b x y : ℕ)
    → x ≡ (if c then a + 1 else a) + k
    → y + k ≡ (if c then b else b + 1) + l
    → (x ≡ a + ((if c then 1 else 0) + k)) × (y + ((if c then 1 else 0) + k) ≡ b + suc l)
count_step true k l a b x y p q = omega arith
count_step false k l a b x y p q = omega arith

-- The loop adds the CJK runes to one counter and the others to the other.
count_runes_lem : (rs : List ℕ) (a b : ℕ) → Counted rs a b (count_runes rs a b)
unfolding count_runes
count_runes_lem [] a b = omega arith
count_runes_lem (r ∷ rs) a b =
    let c = is_cjk r in
    let rest = count_runes_lem rs (if c then a + 1 else a) (if c then b else b + 1) in
    count_step c (cjk_in rs) (length rs) a b _ _ rest.0 rest.1

pub empty_text : (s : String) → len s ≡ 0 → codes s ≡ []
empty_text String.[] h = refl
empty_text (String.◌∷◌ c s) h = absurd (omega (arith, len.cons c s, (len_utf8-pos c).1))

-- The estimate by the number of runes and of CJK runes.
pub estimate_tokens_lem :
    (s : String) → estimate_tokens s ≡ cjk_in (codes s) + (length (codes s) - cjk_in (codes s)) / 4
unfolding estimate_tokens
estimate_tokens_lem s = elim (Bool-cases (len s == 0)) [
  | inl e ↦ rw (e, empty_text s ((==_iff (len s) 0).0 e))
  | inr e ↦ rw e (omega (arith, count_runes_lem (codes s) 0 0))
]

-- A text of n runes is estimated at no fewer than n / 4 and no more than n tokens.
pub estimate_tokens_bounds :
    (s : String)
    → (estimate_tokens s ≤ length (codes s)) × (length (codes s) < 4 * estimate_tokens s + 4)
estimate_tokens_bounds s = omega (arith, estimate_tokens_lem s, cjk_in-le (codes s))

pub codes-append : (s t : String) → codes (text_append s t) ≡ codes s ++ codes t
codes-append String.[] t = ap codes (nil-append t)
codes-append (String.◌∷◌ c s) t =
    ap codes (cons-append c s t) ∙ ap (λ l. code c ∷ l) (codes-append s t)

-- Estimating two texts apart loses at most one token against estimating their concatenation.
pub estimate_tokens-append :
    (s t : String)
    → (estimate_tokens s + estimate_tokens t ≤ estimate_tokens (text_append s t))
      × (estimate_tokens (text_append s t) ≤ estimate_tokens s + estimate_tokens t + 1)
estimate_tokens-append s t = omega (
  arith,
  estimate_tokens_lem s,
  estimate_tokens_lem t,
  estimate_tokens_lem (text_append s t),
  ap length (codes-append s t),
  length-append (codes s) (codes t),
  ap cjk_in (codes-append s t),
  cjk_in-append (codes s) (codes t),
  cjk_in-le (codes s),
  cjk_in-le (codes t),
)

-- Converting a number of tokens to characters and back is the identity, and converting characters
-- to tokens and back loses fewer than four characters.
pub chars_tokens_roundtrip :
    (n : ℕ) (cjk : Bool)
    → (estimate_tokens_from_chars (estimate_chars_from_tokens n cjk) cjk ≡ n)
      × (estimate_chars_from_tokens (estimate_tokens_from_chars n cjk) cjk ≤ n)
      × (n < estimate_chars_from_tokens (estimate_tokens_from_chars n cjk) cjk + 4)
unfolding estimate_tokens_from_chars estimate_chars_from_tokens
chars_tokens_roundtrip n true = omega arith
chars_tokens_roundtrip n false = omega arith
