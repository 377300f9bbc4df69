-- ===== src/Query/Marks.antt =====
-- The placeholders of the texts that the statement is built from.
use imap_mcp.Prelude.{
  ℕ, zero, suc, ◌+◌, ◌/◌, ◌%◌, ◌≡◌, ◌⊎◌, refl, Bool, true, ◌&&◌, List, [], ◌∷◌, ◌++◌, some, Text,
  text_eq, length, leb, ◌==◌, if◌then◌else◌, arith, Bool-cases, inl, inr,
}
use imap_mcp.Query.{digits, itoa, clause}
use imap_mcp.Query.Views.{View, Field, views, view_in, field_in}
use imap_mcp.Query.Values.{Checked, Failure, ok, err, ◌>>=◌, Arg}
use imap_mcp.Query.Filters.{join, marks}

-- The number of "?" of a text.
unfoldable pub marks_in : Text → ℕ
marks_in [] = 0
marks_in (c ∷ s) = (if c == b'?' then 1 else 0) + marks_in s

unfoldable pub total_marks : List Text → ℕ
unfolding marks_in
total_marks [] = 0
total_marks (s ∷ ss) = marks_in s + total_marks ss

pub marks_in-append : (s t : Text) → marks_in (s ++ t) ≡ marks_in s + marks_in t
unfolding marks_in
marks_in-append [] t = omega arith
marks_in-append (c ∷ s) t = omega (arith, marks_in-append s t)

pub marks_in-join :
    (sep : Text) (ss : List Text) → marks_in sep ≡ 0 → marks_in (join sep ss) ≡ total_marks ss
unfolding join total_marks
marks_in-join sep [] h = refl
marks_in-join sep (s ∷ []) h = omega arith
marks_in-join sep (s ∷ t ∷ ss) h =
    rw marks_in-append (rw (marks_in-append sep) (omega (arith, h, marks_in-join sep (t ∷ ss) h)))

pub total_marks-marks : (args : List Arg) → total_marks (marks args) ≡ length args
unfolding marks total_marks marks_in
total_marks-marks [] = refl
total_marks-marks (a ∷ args) = omega (arith, total_marks-marks args)

pub marks_in-clause :
    (keyword sep : Text) (parts : List Text)
    → marks_in keyword ≡ 0
    → marks_in sep ≡ 0
    → marks_in (clause keyword sep parts) ≡ total_marks parts
unfolding clause total_marks marks_in
marks_in-clause keyword sep [] h k = refl
marks_in-clause keyword sep (s ∷ ss) h k =
    ground (arith, marks_in-append keyword (join sep (s ∷ ss)), marks_in-join sep (s ∷ ss) k)

marks_in-digits : (fuel n : ℕ) → marks_in (digits fuel n) ≡ 0
unfolding digits marks_in
marks_in-digits zero n = refl
marks_in-digits (suc fuel) n = ground (
  arith,
  marks_in-digits fuel (n / 10),
  marks_in-append (digits fuel (n / 10)) ((b'0' + n % 10) ∷ []),
)

pub marks_in-itoa : (n : ℕ) → marks_in (itoa n) ≡ 0
unfolding itoa
marks_in-itoa n = marks_in-digits (suc n) n

abbrev no_marks : Text → Bool
no_marks s = leb (marks_in s) 0

abbrev no_marks_fields : List Field → Bool
no_marks_fields [] = true
no_marks_fields (f ∷ fs) = no_marks f.expr && no_marks_fields fs

abbrev no_marks_views : List View → Bool
no_marks_views [] = true
no_marks_views (v ∷ vs) = (no_marks v.from && no_marks_fields v.fields) && no_marks_views vs

views_have_none : no_marks_views views ≡ true
unfolding marks_in
views_have_none = refl

-- No SQL of the view has a placeholder.
abbrev pub IsClean : View → Type 0
IsClean v = (marks_in v.from ≡ 0) × (no_marks_fields v.fields ≡ true)

view_in_vs-IsClean :
    (vs : List View) (name : Text) (v : View)
    → no_marks_views vs ≡ true
    → view_in vs name ≡ some v
    → IsClean v
unfolding view_in
view_in_vs-IsClean [] name v h e = absurd (ground arith)
view_in_vs-IsClean (w ∷ vs) name v h e = elim (Bool-cases (text_eq w.name name)) [
  | inl this ↦ let e' : w ≡ v = ground arith in rw (← e') (ground arith, ground arith)
  | inr next ↦ view_in_vs-IsClean vs name v (ground arith) (ground arith)
]

pub view_in-IsClean : (name : Text) (v : View) → view_in views name ≡ some v → IsClean v
view_in-IsClean name v = view_in_vs-IsClean views name v views_have_none

clean_field :
    (fs : List Field) (name : Text) (f : Field)
    → no_marks_fields fs ≡ true
    → field_in fs name ≡ some f
    → marks_in f.expr ≡ 0
unfolding field_in
clean_field [] name f h e = absurd (ground arith)
clean_field (g ∷ fs) name f h e = elim (Bool-cases (text_eq g.name name)) [
  | inl this ↦ let e' : g ≡ f = ground arith in rw (← e') (ground arith)
  | inr next ↦ clean_field fs name f (ground arith) (ground arith)
]

pub marks_in-field :
    (v : View) (name : Text) (f : Field)
    → IsClean v
    → field_in v.fields name ≡ some f
    → marks_in f.expr ≡ 0
marks_in-field v name f clean = clean_field v.fields name f clean.1

-- What a chain that returns a value has returned on the way.
pub bind-ok {ℓ κ} :
    {A : Type ℓ} {B : Type κ} (m : Checked A) (f : A → Checked B) (b : B)
    → (m >>= f) ≡ ok b
    → (a : A) × (m ≡ ok a) × (f a ≡ ok b)
bind-ok (ok a) f b e = (a, refl, e)
bind-ok (err x) f b e = absurd (ground arith)

pub Checked-cases {ℓ} :
    {A : Type ℓ} (m : Checked A) → ((a : A) × (m ≡ ok a)) ⊎ ((x : Failure) × (m ≡ err x))
Checked-cases (ok a) = inl (a, refl)
Checked-cases (err x) = inr (x, refl)
