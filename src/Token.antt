-- ===== src/Token.antt =====
-- internal/session/token.go: the token estimates of texts. Go's `range` over a text visits its
-- runes, which are `codes text` here.
pub mod Estimate
pub mod Stats
mod Tests
use vibe_local_go.Base.{
  ℕ, suc, ◌+◌, ◌*◌, ◌/◌, String, len, Bool, true, false, ◌&&◌, ◌||◌, List, [], ◌∷◌, leb, ltb, ◌==◌,
  if◌then◌else◌, codes, str_eq, length,
}

abbrev pub average_chars_per_token : ℕ
average_chars_per_token = 4

abbrev pub image_token_estimate : ℕ
image_token_estimate = 800

-- r >= lo && r <= hi
abbrev in_range : ℕ → ℕ → ℕ → Bool
in_range lo hi r = leb lo r && leb r hi

is_han : ℕ → Bool
is_han r =
    in_range 0x4E00 0x9FFF r
    || in_range 0x3400 0x4DBF r
    || in_range 0x20000 0x2A6DF r
    || in_range 0x2A700 0x2B73F r
    || in_range 0x2B740 0x2B81F r
    || in_range 0x2B820 0x2CEAF r
    || in_range 0xF900 0xFAFF r
    || in_range 0x2F800 0x2FA1F r

is_hangul : ℕ → Bool
is_hangul r =
    in_range 0xAC00 0xD7A3 r
    || in_range 0x1100 0x11FF r
    || in_range 0x3130 0x318F r
    || in_range 0xA960 0xA97C r
    || in_range 0xD7B0 0xD7FB r

is_kana : ℕ → Bool
is_kana r =
    in_range 0x3040 0x30FF r
    || in_range 0x31F0 0x31FF r
    || in_range 0xFF00 0xFFEF r
    || in_range 0x3000 0x303F r
    || in_range 0xFF5F 0xFF9F r

unfoldable pub is_cjk : ℕ → Bool
unfolding is_han is_hangul is_kana
is_cjk r = if is_han r then true else if is_hangul r then true else is_kana r

-- The loop of `EstimateTokens`: the numbers of CJK and of other runes.
unfoldable pub count_runes : List ℕ → ℕ → ℕ → ℕ × ℕ
unfolding is_cjk
count_runes [] cjk other = (cjk, other)
count_runes (r ∷ rs) cjk other =
    let c = is_cjk r in count_runes rs (if c then cjk + 1 else cjk) (if c then other else other + 1)

unfoldable pub estimate_tokens : String → ℕ
unfolding count_runes
estimate_tokens text =
    if len text == 0
    then 0
    else (let n = count_runes (codes text) 0 0 in n.0 + n.1 / average_chars_per_token)

unfoldable pub estimate_tokens_with_images : String → ℕ → ℕ
unfolding estimate_tokens
estimate_tokens_with_images text image_count =
    estimate_tokens text + image_count * image_token_estimate

unfoldable pub estimate_tokens_from_chars : ℕ → Bool → ℕ
estimate_tokens_from_chars char_count cjk =
    if cjk then char_count else char_count / average_chars_per_token

unfoldable pub estimate_chars_from_tokens : ℕ → Bool → ℕ
estimate_chars_from_tokens token_count cjk =
    if cjk then token_count else token_count * average_chars_per_token

is_space_or_punctuation : ℕ → Bool
is_space_or_punctuation r =
    (r == b' ' || r == 9 || r == 10 || r == 13)
    || (r == b'.'
        || r == b','
        || r == b'!'
        || r == b'?'
        || r == b';'
        || r == b':'
        || r == b'-'
        || r == b'_'
        || r == b'('
        || r == b')'
        || r == b'['
        || r == b']'
        || r == b'{'
        || r == b'}')

pub record TextStats : Type 0 where
  pub char_count : ℕ
  pub byte_count : ℕ
  pub cjk_char_count : ℕ
  pub other_count : ℕ
  pub word_count : ℕ
  pub token_estimate : ℕ

-- The variables of the loop of `GetTextStats`.
pub record Scan : Type 0 where
  pub cjk : ℕ
  pub other : ℕ
  pub words : ℕ
  pub in_word : Bool

scan_rune : ℕ → Scan → Scan
unfolding is_cjk is_space_or_punctuation
scan_rune r s =
    if is_cjk r
    then record s { cjk = s.cjk + 1; in_word = false }
    else if is_space_or_punctuation r
    then record s { words = (if s.in_word then s.words + 1 else s.words); in_word = false }
    else record s { other = s.other + 1; in_word = true }

scan_runes : List ℕ → Scan → Scan
unfolding scan_rune
scan_runes [] s = s
scan_runes (r ∷ rs) s = scan_runes rs (scan_rune r s)

unfoldable pub get_text_stats : String → TextStats
unfolding scan_runes
get_text_stats text =
    let s = scan_runes (codes text) (record { cjk = 0; other = 0; words = 0; in_word = false }) in
    record {
      char_count = length (codes text);
      byte_count = len text;
      cjk_char_count = s.cjk;
      other_count = s.other;
      word_count = (if s.in_word then s.words + 1 else s.words);
      token_estimate = s.cjk + s.other / average_chars_per_token;
    }

-- The loop of `IsLikelyCJKText`: the CJK runes and all runes.
count_cjk : List ℕ → ℕ → ℕ → ℕ × ℕ
unfolding is_cjk
count_cjk [] cjk total = (cjk, total)
count_cjk (r ∷ rs) cjk total = count_cjk rs (if is_cjk r then cjk + 1 else cjk) (total + 1)

unfoldable pub is_likely_cjk_text : String → Bool
unfolding count_cjk
is_likely_cjk_text text =
    if len text == 0 then false else (let n = count_cjk (codes text) 0 0 in ltb n.1 (n.0 * 3))
