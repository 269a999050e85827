-- ===== src/Web/Bodies.antt =====
-- What a handler behind `MaxBodyBytes` can read, and which JSON bodies are decoded.
use gouterstellar_platform.Base.{
  Bool-cases, Result, ok, err, length, length-take_le, ok-injective, ℕ, zero, suc, ◌≤◌, ◌<◌, ◌≡◌,
  refl, sym, ap, subst, ◌↔◌, ◌⊎◌, inl, inr, Bool, true, false, Option, none, some, arith,
}
use gouterstellar_platform.Base.Int.{ℤ, pos, negsuc, ltb_ℤ, ◌≤ℤ◌}
use gouterstellar_platform.Text.{codes}
use gouterstellar_platform.Web.Requests.{
  Body, limited, read_all, Request, Writer, http_error, Handler,
}
use gouterstellar_platform.Web.Headers.{bounded, max_body_bytes}
use gouterstellar_platform.Web.Json.{
  Decoder, DecodeFailure, eof, failed, trailing, finish, decode_json,
}

-- A body that is cut at `n` bytes: nothing more is read of it, a body that is short enough is read as it
-- is, and a read of a longer one fails.
pub record IsBounded (n : ℕ) (whole cut : Body) : Type 0 where
  pub short : length (read_all cut).0 ≤ n
  pub same : length (read_all whole).0 ≤ n → read_all cut ≡ read_all whole
  pub fails : n < length (read_all whole).0 → (read_all cut).1 ≡ true

limited-IsBounded : (n : ℕ) (b : Body) → IsBounded n b (limited n b)
unfolding read_all
limited-IsBounded n b = record {
  short = ground (arith, length-take_le n (read_all b).0);
  same = λ h. ground arith;
  fails = λ h. ground arith;
}

module _ {X A : Type 0} where
  -- `MaxBodyBytes` panics for a limit that is not positive. Its middleware refuses a request that
  -- declares a longer body, with nothing handed on, and hands any other one on with the body cut at the
  -- limit, whatever it declares.
  pub max_body_bytes_lem :
      (limit : ℤ) (next : Handler X A) (r : Request X) (w : Writer)
      → ((max_body_bytes {X = X} {A = A} limit ≡ none) × (limit ≤ℤ pos 0))
        ⊎ ((n : ℕ) × (middleware : Handler X A → Handler X A) × (limit ≡ pos (suc n))
            × (max_body_bytes limit ≡ some middleware)
            × (((pos (suc (suc n)) ≤ℤ r.content_length)
                  × (middleware next r w ≡ http_error w 413 (codes "Request Entity Too Large")))
                ⊎ ((body : Body) × (r.content_length ≤ℤ pos (suc n))
                    × IsBounded (suc n) r.body body
                    × (middleware next r w ≡ next (record r { body = body }) w))))
  unfolding max_body_bytes bounded
  max_body_bytes_lem (pos zero) next r w = inl (refl, omega arith)
  max_body_bytes_lem (negsuc n) next r w = inl (refl, omega arith)
  max_body_bytes_lem (pos (suc n)) next r w = inr (
    n,
    bounded (suc n),
    refl,
    refl,
    elim (Bool-cases (ltb_ℤ (pos (suc n)) r.content_length)) [
      | inl t ↦ inl (ground arith, rw (t, bounded) refl)
      | inr f ↦ inr (
        limited (suc n) r.body,
        ground arith,
        limited-IsBounded (suc n) r.body,
        rw (f, bounded) refl,
      )
    ],
  )

module _ {S V E : Type 0} (decoder : Decoder S V E) where
  -- The decoder, set to refuse unknown fields, finds one value in a body and then its end.
  abbrev pub IsSingle : Body → V → Type 0
  IsSingle b v =
      (s : S) × (t : S) × (decoder.decode (decoder.disallow_unknown_fields (decoder.start b))
        ≡ (ok v, s))
      × (decoder.decode_raw s ≡ (err eof, t))

  trailing_inv :
      (v v' : V) (r : Result (DecodeFailure E) (Unit {0}))
      → trailing decoder v r ≡ ok v'
      → (v ≡ v') × (r ≡ err eof)
  unfolding trailing
  trailing_inv v v' (err eof) h = (ok-injective _ _ h, refl)
  trailing_inv v v' (err (failed e)) h = cc h
  trailing_inv v v' (ok a) h = cc h

  finish_inv :
      (v : V) (q : Result (DecodeFailure E) V × S)
      → finish decoder q ≡ ok v
      → (s : S) × (t : S) × (q ≡ (ok v, s)) × (decoder.decode_raw s ≡ (err eof, t))
  unfolding finish
  finish_inv v (err e, s) h = cc h
  finish_inv v (ok v', s) h =
      let (e, f) = trailing_inv v' v (decoder.decode_raw s).0 h in
      (
        s,
        (decoder.decode_raw s).1,
        ap (λ x. (ok x, s)) e,
        ap (λ r. (r, (decoder.decode_raw s).1)) f,
      )

  finish_single :
      (v : V) (q : Result (DecodeFailure E) V × S) (s t : S)
      → q ≡ (ok v, s)
      → decoder.decode_raw s ≡ (err eof, t)
      → finish decoder q ≡ ok v
  unfolding finish trailing
  finish_single v q s t e f =
      subst (λ p. finish decoder p ≡ ok v) (sym e) (ap (λ p. trailing decoder v p.0) f)

  -- The conditions under which `DecodeJSON` gives a value.
  abbrev pub IsAccepted : Bool → Option Body → ℤ → V → Type 0
  IsAccepted writer body max_bytes v =
      (b : Body) × (n : ℕ) × (writer ≡ true)
      × (body ≡ some b)
      × (max_bytes ≡ pos (suc n))
      × IsSingle (limited (suc n) b) v

  decode_sound :
      (writer : Bool) (body : Option Body) (max_bytes : ℤ) (v : V)
      → (decode_json decoder writer body max_bytes).0 ≡ ok v
      → IsAccepted writer body max_bytes v
  unfolding decode_json
  decode_sound false body m v h = cc h
  decode_sound true none m v h = cc h
  decode_sound true (some b) (pos zero) v h = cc h
  decode_sound true (some b) (negsuc n) v h = cc h
  decode_sound true (some b) (pos (suc n)) v h = (
    b,
    n,
    refl,
    refl,
    refl,
    finish_inv v
        (decoder.decode (decoder.disallow_unknown_fields (decoder.start (limited (suc n) b)))) h,
  )

  decode_complete :
      (writer : Bool) (body : Option Body) (max_bytes : ℤ) (v : V)
      → IsAccepted writer body max_bytes v
      → (decode_json decoder writer body max_bytes).0 ≡ ok v
  unfolding decode_json
  decode_complete writer body m v (b, n, e, f, g, (s, t, p, q)) =
      rw (e, f, g)
        (finish_single v
          (decoder.decode (decoder.disallow_unknown_fields (decoder.start (limited (suc n) b)))) s t
          p q)

  -- `DecodeJSON` gives a value exactly when there are a writer and a body, the maximum is positive, and
  -- the decoder, set to refuse unknown fields, finds that value in the body cut at the maximum and then
  -- the end of the input.
  pub decode_json_iff :
      (writer : Bool) (body : Option Body) (max_bytes : ℤ) (v : V)
      → ((decode_json decoder writer body max_bytes).0 ≡ ok v) ↔ IsAccepted writer body max_bytes v
  decode_json_iff writer body m v = (decode_sound writer body m v, decode_complete writer body m v)
