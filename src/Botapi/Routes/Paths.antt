-- ===== src/Botapi/Routes/Paths.antt =====
-- The paths of internal/botapi/app.go that name a bot by its token.
use tg_session_gateway.Prelude.{
  ◌≡◌, refl, ◌∙◌, ap, Bool, true, not, ◌&&◌, some, [], ◌∷◌, ◌++◌, ◌==◌, ==_iff, arith,
}
use tg_session_gateway.RateGuard.Method.{Text, text, has_prefix}
use tg_session_gateway.Botapi.Routes.{
  drop_prefix, trim_prefix, cut_slash, after_bot, split_bot_token_path,
}

-- No slash in the text.
abbrev pub no_slash : Text → Bool
no_slash [] = true
no_slash (c ∷ t) = not (c == b'/') && no_slash t

cut_slash-append :
    (token rest : Text)
    → no_slash token ≡ true
    → cut_slash (token ++ b'/' ∷ rest) ≡ some (token, rest)
unfolding cut_slash
cut_slash-append [] rest h = refl
cut_slash-append (c ∷ token) rest h = ground (arith, h, cut_slash-append token rest)

has_prefix-append : (p t : Text) → has_prefix p (p ++ t) ≡ true
has_prefix-append [] t = refl
has_prefix-append (c ∷ p) t = ground (arith, has_prefix-append p t, ==_iff c c)

drop_prefix-append : (p t : Text) → drop_prefix p (p ++ t) ≡ t
drop_prefix-append [] t = refl
drop_prefix-append (c ∷ p) t = drop_prefix-append p t

trim_prefix-append : (p t : Text) → trim_prefix p (p ++ t) ≡ t
trim_prefix-append p t = rw (has_prefix-append p t) (drop_prefix-append p t)

-- splitBotTokenPath finds the token and the method in the path of a call, whatever slashes follow
-- the method (the path of a file), if the token has none.
pub split_bot_token_path-append :
    (prefix token rest : Text)
    → no_slash token ≡ true
    → split_bot_token_path (prefix ++ (text "/bot" ++ (token ++ b'/' ∷ rest))) prefix
      ≡ some (token, rest)
unfolding split_bot_token_path
split_bot_token_path-append prefix token rest h =
    ap (λ p. after_bot (trim_prefix (text "/") p)) (trim_prefix-append prefix _)
    ∙ cut_slash-append token rest h
