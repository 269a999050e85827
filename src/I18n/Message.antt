-- ===== src/I18n/Message.antt =====
-- Compiled messages, their rendering, and the direct injection of parameters.
use gouterstellar_platform.Base.{
  if◌then◌else◌, Result, ok, err, ◌>>=◌, length, take, drop, ℕ, zero, suc, ◌-◌, Bool, true, false,
  Option, none, some, List, [], ◌∷◌, ◌++◌,
}
use gouterstellar_platform.Text.{Bytes}
use gouterstellar_platform.I18n.Placeholders.{Match, match_at, find_all, atoi}
use gouterstellar_platform.I18n.Signature.{
  MessageSignature, MessageError, placeholder_out_of_range, has_format, parse_message_signature,
}

pub record MessagePlaceholder : Type 0 where
  pub start : ℕ
  pub end : ℕ
  pub index : ℕ

pub record CompiledMessage : Type 0 where
  pub template : Bytes
  pub placeholders : List MessagePlaceholder
  pub signature : MessageSignature
  pub formatted : Bool

-- The loop of `compileMessage` over the matches.
unfoldable pub compile_placeholders : List Match → Result MessageError (List MessagePlaceholder)
compile_placeholders [] = ok []
compile_placeholders (m ∷ ms) = elim (atoi m.captured) [
  | none ↦ err placeholder_out_of_range
  | some n ↦
      (compile_placeholders ms >>= λ ps.
      ok (record { start = m.start; end = m.end; index = n } ∷ ps))
]

unfoldable pub compile_message : Bytes → Result MessageError CompiledMessage
compile_message message = do
  signature ← parse_message_signature message
  placeholders ← compile_placeholders (find_all 0 0 message)
  ok (record {
    template = message;
    placeholders = placeholders;
    signature = signature;
    formatted = has_format message;
  })

-- `message[from:to]`.
abbrev pub slice : Bytes → ℕ → ℕ → Bytes
slice message from to = take (to - from) (drop from message)

-- `fmt.Sprint` of one value, and `fmt.Sprintf` of a format and values.
pub record Fmt (V : Type 0) : Type 0 where
  pub sprint : V → Bytes
  pub sprintf : Bytes → List V → Bytes

module _ {V : Type 0} (fmt : Fmt V) where
  unfoldable pub nth : List V → ℕ → Option V
  nth [] i = none
  nth (v ∷ vs) zero = some v
  nth (v ∷ vs) (suc i) = nth vs i

  -- What stands in place of a placeholder: the value, or its own text where there is none.
  unfoldable pub substitute : List V → ℕ → Bytes → Bytes
  unfolding nth
  substitute params index text = elim (nth params index) [ none ↦ text | some v ↦ fmt.sprint v ]

  -- The loop of `render`; the number is `last`.
  unfoldable pub render_from : Bytes → List V → ℕ → List MessagePlaceholder → Bytes
  render_from template params last [] = drop last template
  render_from template params last (p ∷ ps) =
      slice template last p.start
      ++ (substitute params p.index (slice template p.start p.end)
          ++ render_from template params p.end ps)

  unfoldable pub no_params : List V → Bool
  no_params [] = true
  no_params (_ ∷ _) = false

  unfoldable pub render : CompiledMessage → List V → Bytes
  render message params =
      if no_params params
      then message.template
      else (let result = render_from message.template params 0 message.placeholders in
          if message.formatted then fmt.sprintf result params else result)

  -- What `ReplaceAllStringFunc` calls for each match.
  unfoldable pub replace : List V → Bytes → Bytes → Bytes
  replace params captured text = elim (atoi captured) [
    | none ↦ text
    | some n ↦ substitute params n text
  ]

  -- `ReplaceAllStringFunc` on a text; the number counts bytes of the last match.
  unfoldable pub replace_all : List V → ℕ → Bytes → Bytes
  replace_all params k [] = []
  replace_all params (suc k) (c ∷ s) = replace_all params k s
  replace_all params zero (c ∷ s) = elim (match_at c s) [
    | none ↦ c ∷ replace_all params zero s
    | some run ↦
        replace params run (take (suc (suc (length run))) (c ∷ s))
        ++ replace_all params (suc (length run)) s
  ]

  unfoldable pub inject_params : Bytes → List V → Bytes
  inject_params message params =
      if no_params params
      then message
      else (let result = replace_all params 0 message in
          if has_format result then fmt.sprintf result params else result)
