-- ===== src/Faq/Defs.antt =====
-- The entries, the service and its methods.
use gouterstellar_platform.Base.{
  ltb, if◌then◌else◌, Result, ok, err, map_err, forward, ℕ, Bool, true, false, ◌||◌, Option, none,
  some, List,
}
use gouterstellar_platform.Text.{Bytes, is_empty}
use gouterstellar_platform.Text.Trim.{trim_space}
use gouterstellar_platform.Text.Runes.{rune_count}

-- The time of the last update is a number.
pub record Entry : Type 0 where
  pub id : Bytes
  pub question : Bytes
  pub answer : Bytes
  pub published : Bool
  pub updated_at : ℕ

-- The interface `Store`. The reads leave the state as it is.
pub record Store (S E : Type 0) : Type 0 where
  pub list_published : S → Bytes → Result E (List Entry)
  pub list_all : S → Result E (List Entry)
  pub by_id : S → Bytes → Result E Entry
  pub create : S → Entry → Result E Bytes × S
  pub update : S → Entry → Result E Bool × S
  pub delete : S → Bytes → Result E Bool × S

-- `ErrInvalid`, `ErrMissing`, or an error that the store returned.
pub data Error (E : Type 0) : Type 0 where
  invalid missing : Error E
  from_store : E → Error E

pub record Service (S E : Type 0) : Type 0 where
  pub store : Store S E

module _ {S E : Type 0} where
  unfoldable pub new : Option (Store S E) → Result (Error E) (Service S E)
  new none = err invalid
  new (some store) = ok (record { store = store })

  unfoldable pub search : Service S E → S → Bytes → Result (Error E) (List Entry)
  search service s text =
      let text = trim_space text in
      if ltb 100 (rune_count text)
      then err invalid
      else map_err from_store (service.store.list_published s text)

  unfoldable pub all : Service S E → S → Result (Error E) (List Entry)
  all service s = map_err from_store (service.store.list_all s)

  unfoldable pub by_id : Service S E → S → Bytes → Result (Error E) Entry
  by_id service s id =
      if is_empty id then err invalid else map_err from_store (service.store.by_id s id)

  -- `err`, then `!changed`, then the result.
  changed_or_missing {ℓ} : {A : Type ℓ} → Result E Bool × S → A → Result (Error E) A × S
  changed_or_missing (err e, s) a = (err (from_store e), s)
  changed_or_missing (ok true, s) a = (ok a, s)
  changed_or_missing (ok false, s) a = (err missing, s)

  unfoldable pub save : Service S E → S → Entry → Result (Error E) Bytes × S
  unfolding changed_or_missing
  save service s entry =
      let entry = record entry {
        question = trim_space entry.question;
        answer = trim_space entry.answer;
      } in
      if is_empty entry.question
        || is_empty entry.answer
        || ltb 200 (rune_count entry.question)
        || ltb 8000 (rune_count entry.answer)
      then (err invalid, s)
      else if is_empty entry.id
      then forward from_store (service.store.create s entry)
      else changed_or_missing (service.store.update s entry) entry.id

  unfoldable pub delete : Service S E → S → Bytes → Result (Error E) (Unit {0}) × S
  unfolding changed_or_missing
  delete service s id =
      if is_empty id then (err invalid, s) else changed_or_missing (service.store.delete s id) tt
