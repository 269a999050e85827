-- ===== src/I18n/Signature.antt =====
-- `parseMessageSignature`: the set of placeholder indexes, and the format verbs of a message.
use gouterstellar_platform.Base.{
  ltb, leb, ◌==◌, if◌then◌else◌, Result, ok, err, ◌>>=◌, length, drop, ℕ, ◌≡◌, refl, Bool, true,
  false, ◌&&◌, ◌||◌, none, some, List, [], ◌∷◌, arith,
}
use gouterstellar_platform.Text.{Bytes, codes}
use gouterstellar_platform.I18n.Placeholders.{digits, Match, find_all, atoi}

pub record MessageSignature : Type 0 where
  pub indexed : List ℕ
  pub verbs : List ℕ

pub data MessageError : Type 0 where
  placeholder_out_of_range unsupported_verb unescaped_percent : MessageError

-- The map of indexes, in the order in which they were put in.
has_index : List ℕ → ℕ → Bool
has_index [] n = false
has_index (m ∷ ms) n = m == n || has_index ms n

unfoldable pub collect : List Match → List ℕ → Result MessageError (List ℕ)
unfolding has_index
collect [] indexes = ok indexes
collect (m ∷ ms) indexes = elim (atoi m.captured) [
  | none ↦ err placeholder_out_of_range
  | some n ↦ collect ms (if has_index indexes n then indexes else n ∷ indexes)
]

-- `sort.Ints`.
insert : ℕ → List ℕ → List ℕ
insert n [] = n ∷ []
insert n (m ∷ ms) = if leb n m then n ∷ m ∷ ms else m ∷ insert n ms

unfoldable pub sort_ints : List ℕ → List ℕ
unfolding insert
sort_ints [] = []
sort_ints (n ∷ ns) = insert n (sort_ints ns)

unfoldable pub is_verb : ℕ → Bool
is_verb c = c == b's' || c == b'd'

abbrev head_is : (ℕ → Bool) → Bytes → Bool
head_is p [] = false
head_is p (c ∷ s) = p c

-- `javaFormatRE.MatchString`: `%s` or `%d` anywhere in the text.
unfoldable pub has_format : Bytes → Bool
unfolding is_verb
has_format [] = false
has_format (c ∷ s) = (c == b'%' && head_is is_verb s) || has_format s

-- The pieces of `javaVerbRE` behind the percent sign. Each is as long as can be; what a shorter one
-- would leave to the next piece, that piece takes too, so that a match is missed by none.
is_flag : ℕ → Bool
is_flag c = c == b'-' || c == b'#' || c == b'+' || c == b'0' || c == b',' || c == b'(' || c == b'<'

drop_flags : Bytes → Bytes
drop_flags [] = []
drop_flags (c ∷ s) = let rest = drop_flags s in if is_flag c then rest else c ∷ s

drop_digits : Bytes → Bytes
drop_digits s = drop (length (digits s)) s

drop_argument : Bytes → Bytes
unfolding drop_digits
drop_argument s =
    let rest = drop_digits s in
    if ltb 0 (length (digits s)) && head_is (λ c. c == b'$') rest then drop 1 rest else s

drop_fraction : Bytes → Bytes
unfolding drop_digits
drop_fraction s =
    if head_is (λ c. c == b'.') s && ltb 0 (length (digits (drop 1 s)))
    then drop_digits (drop 1 s)
    else s

is_one_of : Bytes → ℕ → Bool
is_one_of [] c = false
is_one_of (b ∷ bs) c = c == b || is_one_of bs c

-- Whether `javaVerbRE` matches at a percent sign that `s` follows.
unfoldable pub is_java_verb : Bytes → Bool
unfolding is_flag drop_flags drop_digits drop_argument drop_fraction is_one_of
is_java_verb s =
    head_is (is_one_of (codes "bBhHsScCdoxXeEfgGaAtTn"))
      (drop_fraction (drop_digits (drop_flags (drop_argument s))))

-- What the loop does at a percent sign that `s` follows: skip the next byte, record it as a verb and
-- skip it, go on, or stop.
pub data Percent : Type 0 where
  escaped : Percent
  verb : ℕ → Percent
  plain : Percent
  stop : MessageError → Percent

unfoldable pub percent : Bool → Bytes → Percent
percent formatted [] = plain
percent formatted (d ∷ s) =
    if d == b'%'
    then escaped
    else if is_verb d
    then verb d
    else if is_java_verb (d ∷ s)
    then stop unsupported_verb
    else if formatted
    then stop unescaped_percent
    else plain

-- The loop over the message. The flag says that the byte at hand was taken by the one before.
unfoldable pub scan_verbs : Bool → Bool → Bytes → Result MessageError (List ℕ)
unfolding is_verb percent
scan_verbs formatted taken [] = ok []
scan_verbs formatted true (c ∷ s) = scan_verbs formatted false s
scan_verbs formatted false (c ∷ s) = elim (if c == b'%' then percent formatted s else plain) [
  | escaped ↦ scan_verbs formatted true s
  | verb d ↦ (scan_verbs formatted true s >>= λ verbs. ok (d ∷ verbs))
  | plain ↦ scan_verbs formatted false s
  | stop e ↦ err e
]

unfoldable pub parse_message_signature : Bytes → Result MessageError MessageSignature
parse_message_signature message = do
  indexes ← collect (find_all 0 0 message) []
  verbs ← scan_verbs (has_format message) false message
  ok (record { indexed = sort_ints indexes; verbs = verbs })

-- `slices.Equal`.
equal_lists : List ℕ → List ℕ → Bool
equal_lists [] [] = true
equal_lists [] (_ ∷ _) = false
equal_lists (_ ∷ _) [] = false
equal_lists (a ∷ s) (b ∷ t) = a == b && equal_lists s t

unfoldable pub same_message_signature : MessageSignature → MessageSignature → Bool
unfolding equal_lists
same_message_signature first second =
    equal_lists first.indexed second.indexed && equal_lists first.verbs second.verbs

equal_lists_sound : (s t : List ℕ) → equal_lists s t ≡ true → s ≡ t
unfolding equal_lists
equal_lists_sound [] [] h = refl
equal_lists_sound [] (_ ∷ _) h = cc
equal_lists_sound (_ ∷ _) [] h = cc
equal_lists_sound (a ∷ s) (b ∷ t) h = ground (arith, equal_lists_sound s t)

pub same_message_signature_sound :
    (a b : MessageSignature) → same_message_signature a b ≡ true → a ≡ b
unfolding same_message_signature
same_message_signature_sound a b h =
    ground (arith, equal_lists_sound a.indexed b.indexed, equal_lists_sound a.verbs b.verbs)
