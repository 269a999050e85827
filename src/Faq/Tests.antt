-- ===== src/Faq/Tests.antt =====
-- A store in memory with room for one entry, and runs.
use gouterstellar_platform.Base.{
  if◌then◌else◌, Result, ok, err, ℕ, ◌≡◌, refl, Bool, true, false, Option, none, some, List, [],
  ◌∷◌, arith,
}
use gouterstellar_platform.Text.{Bytes, codes, text_eq, text_eq_iff}
use gouterstellar_platform.Text.Trim.{trim_space}
use gouterstellar_platform.Text.Runes.{rune_count}
use gouterstellar_platform.Faq.{Entry, Store, Service, invalid, new, search, save, delete, all}
use gouterstellar_platform.Faq.Workflow.{
  Call, saves, deletes, IsEntry, Keeps, IsLawful, run_writes, run_writes-Keeps,
}

holds : Option Entry → Bytes → Bool
holds none id = false
holds (some e) id = text_eq e.id id

find : Option Entry → Bytes → Result ℕ Entry
find none id = err 0
find (some e) id = if text_eq e.id id then ok e else err 0

abbrev memory : Store (Option Entry) ℕ
memory = record {
  list_published = λ s text. ok [];
  list_all = λ s. ok [];
  by_id = find;
  create = λ s e. (ok (codes "1"), some (record e { id = codes "1" }));
  update = λ s e. if holds s e.id then (ok true, some e) else (ok false, s);
  delete = λ s id. if holds s id then (ok true, none) else (ok false, s);
}

abbrev service : Service (Option Entry) ℕ
service = record { store = memory }

memory-IsLawful : IsLawful memory
unfolding find holds
memory-IsLawful = record {
  created = λ s s' e id h. ground (arith, text_eq_iff (codes "1") (codes "1"));
  updated = λ s s' e h. ground (arith, text_eq_iff e.id e.id);
}

abbrev entry : Bytes → Bytes → Entry
entry id question = record {
  id = id;
  question = question;
  answer = codes " Yes. ";
  published = false;
  updated_at = 9;
}

abbrev stored : Bytes → Bytes → Entry
stored id question = record (entry id question) { answer = codes "Yes." }

abbrev HasText : Option Entry → Type 0
HasText none = Unit
HasText (some e) = IsEntry e

HasText-if :
    (b : Bool) (x y : Result ℕ Bool) (s t : Option Entry)
    → HasText s
    → HasText t
    → HasText (if◌then◌else◌ {A = Result ℕ Bool × Option Entry} b (x, s) (y, t)).1
HasText-if true x y s t hs ht = hs
HasText-if false x y s t hs ht = ht

memory-Keeps : Keeps memory HasText
memory-Keeps = record {
  creating = λ s e text fresh p. text;
  updating = λ s e text named p. HasText-if (holds s e.id) (ok true) (ok false) (some e) s text p;
  deleting = λ s id named p. HasText-if (holds s id) (ok true) (ok false) none s tt p;
}

abbrev calls : List Call
calls =
    saves (entry [] (codes "Open? ")) ∷ saves (entry (codes "2") (codes "Open?")) ∷ deletes [] ∷ []

history_run : run_writes service none calls ≡ some (stored (codes "1") (codes "Open?"))
unfolding save delete trim_space rune_count text_eq holds
history_run = refl

run_writes-Keeps_example : HasText (run_writes service none calls)
run_writes-Keeps_example = run_writes-Keeps service memory-Keeps none calls tt

saved :
    save service none (entry [] (codes "Open? "))
    ≡ (ok (codes "1"), some (stored (codes "1") (codes "Open?")))
unfolding save trim_space rune_count
saved = refl

long_search : search service none (codes "  opening hours ") ≡ ok []
unfolding search trim_space rune_count
long_search = refl

listing : (all service none ≡ ok []) × (new {S = ℕ} {E = ℕ} none ≡ err invalid)
unfolding all new
listing = (refl, refl)
