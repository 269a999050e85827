-- ===== src/Web/Csrf.antt =====
-- `NewCSRF` of web/csrf.go. The library csrf is a parameter: its options and `Protect`.
use gouterstellar_platform.Base.{if◌then◌else◌, Result, ok, Bool, Option, none, some, List, [], ◌∷◌}
use gouterstellar_platform.Base.Int.{ℤ}
use gouterstellar_platform.Text.{Bytes, codes, is_empty}

-- `H` is a handler of net/http; `none` is a nil one. The maximal age is in nanoseconds.
pub record CsrfConfig (H : Type 0) : Type 0 where
  pub auth_key : Bytes
  pub cookie_name : Bytes
  pub field_name : Bytes
  pub max_age : ℤ
  pub allow_insecure_cookies : Bool
  pub error_handler : Option H

pub data CsrfOption (H : Type 0) : Type 0 where
  field_option : Bytes → CsrfOption H
  error_option : H → CsrfOption H

-- `protect` is `csrf.Protect` with a nil key. The error of the source is always nil.
unfoldable pub new_csrf : {E H M : Type 0} → (List (CsrfOption H) → M) → CsrfConfig H → Result E M
new_csrf protect config =
    let field = if is_empty config.field_name then codes "csrf_token" else config.field_name in
    ok (
      protect (
        field_option field
        ∷ elim config.error_handler [ none ↦ [] | some h ↦ error_option h ∷ [] ]))
