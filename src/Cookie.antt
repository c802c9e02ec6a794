-- ===== src/Cookie.antt =====
-- src/protocol/cookie.rs: the 16-byte cookies.
use saltyrtc_client_rs.Prelude.{
  ℕ, Bool, true, Option, none, some, List, [], ◌∷◌, ◌&&◌, length, nat_eq, if◌then◌else◌, not, M,
  pure, ◌>>=◌, ◌>>◌, panic_if, libsodium_init, zero_random_cookie,
}
use saltyrtc_client_rs.External.{Sodium}

abbrev pub cookie_bytes : ℕ
cookie_bytes = 16

-- `struct Cookie([u8; COOKIE_BYTES])`
abbrev pub Cookie : Type 0
Cookie = List ℕ

pub record CookiePair : Type 0 where
  pub ours : Cookie
  pub theirs : Option Cookie

-- `rand.iter().all(|&x| x == 0)`
unfoldable pub all_zero : List ℕ → Bool
all_zero [] = true
all_zero (x ∷ xs) = nat_eq x 0 && all_zero xs

-- `CookieVisitor::visit_bytes`; `none` is the error for a wrong length.
unfoldable pub visit_cookie_bytes : List ℕ → Option Cookie
visit_cookie_bytes v = if not (nat_eq (length v) 16) then none else some v

module _ (so : Sodium) where
  -- `Cookie::random`
  unfoldable pub random_cookie : {E : Type 0} → M so.Rng E Cookie
  unfolding all_zero
  random_cookie = do
    panic_if (not so.init) libsodium_init
    rand ← λ g. let (bytes, g') = so.randombytes 16 g in pure bytes g'
    panic_if (all_zero rand) zero_random_cookie
    pure rand

  -- `CookiePair::new`
  unfoldable pub new_cookie_pair : {E : Type 0} → M so.Rng E CookiePair
  unfolding random_cookie
  new_cookie_pair = do ours ← random_cookie; pure (record { ours = ours; theirs = none })
