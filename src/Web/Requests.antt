-- ===== src/Web/Requests.antt =====
-- What the package web uses of net/http. The names of headers are written in their canonical form.
use gouterstellar_platform.Base.{
  ltb, if◌then◌else◌, length, take, ℕ, Bool, true, false, Option, [], ◌∷◌,
}
use gouterstellar_platform.Base.Int.{ℤ}
use gouterstellar_platform.Text.{Bytes, codes, text_eq}
use gouterstellar_platform.Text.Dict.{Dict, insert}

-- A request body: bytes that a reader gives, or one bounded by `http.MaxBytesReader`.
pub data Body : Type 0 where
  raw : Bytes → Body
  limited : ℕ → Body → Body

-- What reading to the end gives, and whether the read fails since the bound is exceeded.
unfoldable pub read_all : Body → Bytes × Bool
read_all (raw s) = (s, false)
read_all (limited n b) =
    let (s, failed) = read_all b in if ltb n (length s) then (take n s, true) else (s, failed)

-- `nonce` is the value in the context under `nonceContextKey`; a content length of -1 is unknown. `X`
-- is the rest of a request.
pub record Request (X : Type 0) : Type 0 where
  pub nonce : Option Bytes
  pub content_length : ℤ
  pub body : Body
  pub rest : X

-- The header of a response that is not written yet; the first entry of a name counts.
pub record Writer : Type 0 where
  pub headers : Dict Bytes

-- `w.Header().Set(name, value)`.
unfoldable pub set_header : Writer → Bytes → Bytes → Writer
set_header w name value = record { headers = insert w.headers name value }

-- `w.Header().Del(name)`.
unfoldable pub remove_name : Dict Bytes → Bytes → Dict Bytes
remove_name [] name = []
remove_name ((n, v) ∷ d) name =
    let rest = remove_name d name in if text_eq n name then rest else (n, v) ∷ rest

unfoldable pub del_header : Writer → Bytes → Writer
del_header w name = record { headers = remove_name w.headers name }

-- What a handler does at last: an application's answer, or an error that was written with these
-- headers, a status and a text.
pub data Answer (A : Type 0) : Type 0 where
  answered : A → Answer A
  error_sent : Writer → ℕ → Bytes → Answer A

-- The headers that `http.Error` leaves.
unfoldable pub error_headers : Writer → Writer
error_headers w =
    let w = del_header w (codes "Content-Length") in
    let w = set_header w (codes "Content-Type") (codes "text/plain; charset=utf-8") in
    set_header w (codes "X-Content-Type-Options") (codes "nosniff")

abbrev pub http_error : {A : Type 0} → Writer → ℕ → Bytes → Answer A
http_error w status message = error_sent (error_headers w) status message

abbrev pub Handler : Type 0 → Type 0 → Type 0
Handler X A = Request X → Writer → Answer A
