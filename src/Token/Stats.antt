-- ===== src/Token/Stats.antt =====
-- GetTextStats and IsLikelyCJKText of internal/session/token.go.
use vibe_local_go.Base.{
  ℕ, ◌+◌, ◌*◌, ◌≤◌, ◌<◌, String, len, ◌≡◌, ◌↔◌, inl, inr, true, false, List, [], ◌∷◌, arith, ◌==◌,
  ==_iff, codes, length, Bool-cases, if◌then◌else◌,
}
use vibe_local_go.Token.{
  Scan, is_cjk, scan_rune, scan_runes, count_cjk, estimate_tokens, get_text_stats,
  is_likely_cjk_text,
}
use vibe_local_go.Token.Estimate.{cjk_in, cjk_in-le, estimate_tokens_lem, empty_text}

-- The words ended so far, with the one that is open.
abbrev all_words : Scan → ℕ
all_words s = if s.in_word then s.words + 1 else s.words

record Scanned (rs : List ℕ) (s t : Scan) : Type 0 where
  cjk : t.cjk ≡ s.cjk + cjk_in rs
  other : t.other + cjk_in rs ≤ s.other + length rs
  words : all_words t + s.other ≤ all_words s + t.other

scan_rune_lem : (r : ℕ) (s : Scan) → Scanned (r ∷ []) s (scan_rune r s)
unfolding scan_rune
scan_rune_lem r s = ground arith

Scanned-trans :
    (r : ℕ) (rs : List ℕ) (s t u : Scan)
    → Scanned (r ∷ []) s t
    → Scanned rs t u
    → Scanned (r ∷ rs) s u
Scanned-trans r rs s t u h k = omega arith

scan_runes_lem : (rs : List ℕ) (s : Scan) → Scanned rs s (scan_runes rs s)
unfolding scan_runes
scan_runes_lem [] s = omega arith
scan_runes_lem (r ∷ rs) s =
    Scanned-trans r rs s (scan_rune r s) (scan_runes rs (scan_rune r s)) (scan_rune_lem r s)
      (scan_runes_lem rs (scan_rune r s))

-- In the statistics of a text the CJK and the other characters are at most all characters, there
-- are at most as many words as other characters, and the token estimate is at most that of
-- `EstimateTokens`, which counts spaces and punctuation too.
pub get_text_stats_bounds :
    (s : String)
    → let t = get_text_stats s in
      (t.cjk_char_count + t.other_count ≤ t.char_count)
      × (t.word_count ≤ t.other_count)
      × (t.token_estimate ≤ estimate_tokens s)
unfolding get_text_stats
get_text_stats_bounds s =
    let t = scan_runes_lem (codes s) (record { cjk = 0; other = 0; words = 0; in_word = false }) in
    omega (arith, t, cjk_in-le (codes s), estimate_tokens_lem s)

count_cjk_lem :
    (rs : List ℕ) (a b : ℕ)
    → ((count_cjk rs a b).0 ≡ a + cjk_in rs) × ((count_cjk rs a b).1 ≡ b + length rs)
unfolding count_cjk
count_cjk_lem [] a b = omega arith
count_cjk_lem (r ∷ rs) a b =
    ground (arith, count_cjk_lem rs (if is_cjk r then a + 1 else a) (b + 1))

-- A text is taken for CJK exactly when more than a third of its characters are.
pub is_likely_cjk_text_iff :
    (s : String) → (is_likely_cjk_text s ≡ true) ↔ (length (codes s) < 3 * cjk_in (codes s))
unfolding is_likely_cjk_text
is_likely_cjk_text_iff s = elim (Bool-cases (len s == 0)) [
  | inl e ↦ rw (e, empty_text s ((==_iff (len s) 0).0 e)) (ground arith)
  | inr e ↦ rw e (ground (arith, count_cjk_lem (codes s) 0 0))
]
