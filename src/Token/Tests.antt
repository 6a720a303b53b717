-- ===== src/Token/Tests.antt =====
-- Runs of the estimates of internal/session/token.go, and its theorems at concrete texts.
use vibe_local_go.Base.{◌≡◌, refl, true, false}
use vibe_local_go.Token.{estimate_tokens, is_likely_cjk_text}

estimate_mixed : estimate_tokens "日本語 hello!!!" ≡ 5
unfolding estimate_tokens
estimate_mixed = refl

-- One rune in two is CJK, and one in three is not enough.
likely_third : is_likely_cjk_text "日a" ≡ true
unfolding is_likely_cjk_text
likely_third = refl

likely_not : is_likely_cjk_text "日ab" ≡ false
unfolding is_likely_cjk_text
likely_not = refl
