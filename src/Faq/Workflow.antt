-- ===== src/Faq/Workflow.antt =====
-- What the service writes to its store and reads back.
use gouterstellar_platform.Base.{
  ok, err, map_err, ◌≡◌, ap, ◌∙◌, ◌≢◌, ◌↔◌, ◌⊎◌, inl, inr, true, false, List, [], ◌∷◌, arith,
}
use gouterstellar_platform.Text.{Bytes}
use gouterstellar_platform.Text.Trim.{trim_space}
use gouterstellar_platform.Text.Trim.Laws.{trim_space_idem}
use gouterstellar_platform.Text.Fields.{IsField, is_empty_iff}
use gouterstellar_platform.Faq.Defs.{
  Entry, Store, Service, missing, from_store, by_id, save, delete,
}

pub data Call : Type 0 where
  saves : Entry → Call
  deletes : Bytes → Call

-- The text of an entry as the service writes it.
abbrev pub IsEntry : Entry → Type 0
IsEntry e = IsField 200 e.question × IsField 8000 e.answer

-- A store that keeps a property of its state when entries with such text are written, new ones
-- without an identifier and changed ones with one, and when one is deleted by an identifier.
pub record Keeps {S E : Type 0} (store : Store S E) (P : S → Type 0) : Type 0 where
  pub creating : (s : S) (e : Entry) → IsEntry e → e.id ≡ [] → P s → P (store.create s e).1
  pub updating : (s : S) (e : Entry) → IsEntry e → e.id ≢ [] → P s → P (store.update s e).1
  pub deleting : (s : S) (id : Bytes) → id ≢ [] → P s → P (store.delete s id).1

-- The entry with its question and answer trimmed.
abbrev pub cleaned : Entry → Entry
cleaned e = record e { question = trim_space e.question; answer = trim_space e.answer }

module _ {S E : Type 0} (service : Service S E) where
  abbrev pub step : S → Call → S
  step s (saves e) = (save service s e).1
  step s (deletes id) = (delete service s id).1

  abbrev pub run_writes : S → List Call → S
  run_writes s [] = s
  run_writes s (c ∷ cs) = run_writes (step s c) cs

  module _ {P : S → Type 0} (keeps : Keeps service.store P) where
    step-Keeps : (s : S) (c : Call) → P s → P (step s c)
    unfolding save delete
    step-Keeps s (saves e) p = ground (
      arith,
      is_empty_iff (trim_space e.question),
      is_empty_iff (trim_space e.answer),
      is_empty_iff e.id,
      trim_space_idem e.question,
      trim_space_idem e.answer,
      keeps.creating s (cleaned e),
      keeps.updating s (cleaned e),
    )
    step-Keeps s (deletes id) p = ground (arith, is_empty_iff id, keeps.deleting s id)

    -- A property that the store keeps when entries with trimmed and bounded text are created without
    -- an identifier or updated under one, and when an entry is deleted by an identifier that is not
    -- empty, is kept by any sequence of saves and deletions of the service.
    pub run_writes-Keeps : (s : S) (cs : List Call) → P s → P (run_writes s cs)
    run_writes-Keeps s [] p = p
    run_writes-Keeps s (c ∷ cs) p = run_writes-Keeps (step s c) cs (step-Keeps s c p)

  -- Saving reports a missing entry exactly when the text is acceptable, the entry has an
  -- identifier, and the store found nothing to update.
  pub save_missing_iff :
      (s : S) (e : Entry)
      → ((save service s e).0 ≡ err missing)
        ↔ (IsEntry (cleaned e) × (e.id ≢ []) × ((service.store.update s (cleaned e)).0 ≡ ok false))
  unfolding save
  save_missing_iff s e = (forth, back)
    where
      forth :
          (save service s e).0 ≡ err missing
          → IsEntry (cleaned e) × (e.id ≢ []) × ((service.store.update s (cleaned e)).0 ≡ ok false)
      forth h = ground (
        arith,
        is_empty_iff (trim_space e.question),
        is_empty_iff (trim_space e.answer),
        is_empty_iff e.id,
        trim_space_idem e.question,
        trim_space_idem e.answer,
      )

      back :
          IsEntry (cleaned e) × (e.id ≢ []) × ((service.store.update s (cleaned e)).0 ≡ ok false)
          → (save service s e).0 ≡ err missing
      back h = ground (
        arith,
        is_empty_iff (trim_space e.question),
        is_empty_iff (trim_space e.answer),
        is_empty_iff e.id,
      )

-- What an application's store does on success: an entry that was created is found under the
-- identifier that the store gave it, and one that was updated under its own.
pub record IsLawful {S E : Type 0} (store : Store S E) : Type 0 where
  pub created :
      (s s' : S) (e : Entry) (id : Bytes)
      → store.create s e ≡ (ok id, s')
      → (id ≢ []) × (store.by_id s' id ≡ ok (record e { id = id }))
  pub updated :
      (s s' : S) (e : Entry) → store.update s e ≡ (ok true, s') → store.by_id s' e.id ≡ ok e

module _ {S E : Type 0} (service : Service S E) (lawful : IsLawful service.store) where
  save_ok :
      (s s' : S) (e : Entry) (id : Bytes)
      → save service s e ≡ (ok id, s')
      → ((e.id ≡ []) × (service.store.create s (cleaned e) ≡ (ok id, s')))
        ⊎ ((e.id ≢ []) × (e.id ≡ id) × (service.store.update s (cleaned e) ≡ (ok true, s')))
  unfolding save
  save_ok s s' e id h = ground (arith, is_empty_iff e.id)

  by_id_named :
      (s : S) (id : Bytes)
      → id ≢ []
      → by_id service s id ≡ map_err from_store (service.store.by_id s id)
  unfolding by_id
  by_id_named s id h = ground (arith, is_empty_iff id)

  -- Over such a store, what `Save` reports as saved is what `ByID` reads back: the entry with its
  -- question and answer trimmed, under the reported identifier.
  pub by_id-save :
      (s s' : S) (e : Entry) (id : Bytes)
      → save service s e ≡ (ok id, s')
      → by_id service s' id ≡ ok (record (cleaned e) { id = id })
  by_id-save s s' e id h = elim (save_ok s s' e id h) [
    | inl (_, created) ↦
        let (named, found) = lawful.created s s' (cleaned e) id created in
        by_id_named s' id named ∙ ap (map_err from_store) found
    | inr (named, same, updated) ↦ cc (
      by_id_named s' id (λ none. named (same ∙ none)),
      ap (map_err from_store) (lawful.updated s s' (cleaned e) updated),
      same,
    )
  ]
