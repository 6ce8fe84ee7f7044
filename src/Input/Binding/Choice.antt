-- ===== src/Input/Binding/Choice.antt =====
-- Which binding get_active_binding of sway/input/keyboard.c chooses.
use text.Mathlib.Text.{◌==◌ as str_eq}
use swirl.Prelude.{
  ◌≡◌, ◌≢◌, refl, sym, ◌∙◌, ap, arith, Bool, true, false, ◌&&◌, Option, none, some, List, [], ◌∷◌,
  inl, inr, ◌⊎◌, Bool-cases,
}
use mathlib.Core.Path.{subst}
use swirl.Input.Shortcut.{ShortcutState}
use swirl.Input.Binding.{
  Binding, Query, is_eligible, keys_match, keeps, is_perfect, takes_over, get_active_binding,
}
use swirl.Input.Binding.Executable.{IsExecutable, candidate_sound, candidate_complete}

-- The tests of the loop hold of the binding.
abbrev pub is_candidate : ShortcutState → Query → Binding → Bool
is_candidate st q b = is_eligible q b && keys_match st b

-- Some binding of the list passes the test.
abbrev pub Some : (Binding → Bool) → List Binding → Type 0
Some test [] = ⊥
Some test (b ∷ bs) = (test b ≡ true) ⊎ Some test bs

-- The binding stands in the list.
abbrev pub In : Binding → List Binding → Type 0
In b [] = ⊥
In b (c ∷ cs) = (b ≡ c) ⊎ In b cs

-- What every takeover by a candidate of the table keeps, the search keeps.
loop_rule {ℓ} :
    (P : Option Binding → Type ℓ) (st : ShortcutState) (q : Query) (bs : List Binding)
    → ((c : Option Binding) (b : Binding)
        → In b bs
        → is_candidate st q b ≡ true
        → takes_over q c b ≡ true
        → P c
        → P (some b))
    → (c : Option Binding) → P c
    → P (get_active_binding st q bs c)
unfolding get_active_binding
loop_rule P st q [] keep c h = h
loop_rule P st q (d ∷ bs) keep c h =
    let later = loop_rule P st q bs (λ c' b m. keep c' b (inr m)) in
    elim (Bool-cases (is_candidate st q d)) [
      | inr f ↦ rw f (later c h)
      | inl t ↦ elim (Bool-cases (takes_over q c d)) [
        | inr stays ↦ rw (t, stays) (later c h)
        | inl takes ↦ elim (Bool-cases (is_perfect q d)) [
          | inl p ↦ rw (t, takes, p) (keep c d (inl refl) t takes h)
          | inr p ↦ rw (t, takes, p) (later (some d) (keep c d (inl refl) t takes h))
        ]
      ]
    ]

-- Starting from no binding, what is found stands in the table and may be executed: its modifiers are
-- those held; it is a binding for a release just if a key was released; it is for a locked screen, or
-- for inhibited shortcuts, where they are; it is for the layout or for all layouts, and for the device
-- or, unless an exact one is asked for, for all; and its keys are those pressed, in their order, or
-- its only key is the last one pressed.
pub get_active_binding_sound :
    (st : ShortcutState) (q : Query) (bs : List Binding) (b : Binding)
    → get_active_binding st q bs none ≡ some b
    → In b bs × IsExecutable st q b
get_active_binding_sound st q bs b =
    loop_rule (λ c. c ≡ some b → In b bs × IsExecutable st q b) st q bs
      (λ c d m t takes h e. let e' : d ≡ b = cc in found d m t e') none (λ e. absurd (cc e))
  where
    found :
        (d : Binding) → In d bs → is_candidate st q d ≡ true → d ≡ b → In b bs × IsExecutable st q b
    found d m t e = subst (λ x. In x bs × IsExecutable st q x) e (m, candidate_sound st q d t)

later :
    (test : Binding → Bool) (d : Binding) (bs : List Binding)
    → test d ≡ false
    → Some test (d ∷ bs)
    → Some test bs
later test d bs f (inl t) = cc
later test d bs f (inr k) = k

Found : Option Binding → Type 0
Found c = (b : Binding) × (c ≡ some b)

candidate_found :
    (st : ShortcutState) (q : Query) (bs : List Binding)
    → Some (is_candidate st q) bs
    → (b : Binding) × (get_active_binding st q bs none ≡ some b)
unfolding get_active_binding Found
candidate_found st q [] h = elim h [ ]
candidate_found st q (d ∷ bs) h = elim (Bool-cases (is_candidate st q d)) [
  | inl t ↦ elim (Bool-cases (is_perfect q d)) [
    | inl p ↦ rw (t, p) (d, refl)
    | inr p ↦ rw (t, p) (loop_rule Found st q bs (λ c b m u takes k. (b, refl)) (some d) (d, refl))
  ]
  | inr f ↦ rw f (candidate_found st q bs (later (is_candidate st q) d bs f h))
]

In-Some :
    (test : Binding → Bool) (b : Binding) (bs : List Binding)
    → In b bs
    → test b ≡ true
    → Some test bs
In-Some test b [] m t = elim m [ ]
In-Some test b (c ∷ bs) (inl e) t = inl (ap test (sym e) ∙ t)
In-Some test b (c ∷ bs) (inr m) t = inr (In-Some test b bs m t)

-- If some binding of the table may be executed, in the sense of `IsExecutable`, one is found.
pub get_active_binding_complete :
    (st : ShortcutState) (q : Query) (bs : List Binding) (b : Binding)
    → In b bs
    → IsExecutable st q b
    → (c : Binding) × (get_active_binding st q bs none ≡ some c)
get_active_binding_complete st q bs b m x =
    candidate_found st q bs (In-Some (is_candidate st q) b bs m (candidate_complete st q b x))

-- The binding found names the device.
abbrev names_input : Query → Option Binding → Bool
names_input q none = false
names_input q (some b) = str_eq b.input q.input

-- No other binding of the list has the address of the binding.
abbrev pub Fresh : Option Binding → List Binding → Type 0
Fresh none bs = Unit
Fresh (some c) [] = Unit
Fresh (some c) (b ∷ bs) = (c.addr ≢ b.addr) × Fresh (some c) bs

abbrev pub Distinct : List Binding → Type 0
Distinct [] = Unit
Distinct (b ∷ bs) = Fresh (some b) bs × Distinct bs

takes_over-input :
    (q : Query) (c : Option Binding) (b : Binding)
    → takes_over q c b ≡ true
    → names_input q c ≡ true
    → str_eq b.input q.input ≡ true
unfolding keeps
takes_over-input q none b t h = ground arith
takes_over-input q (some c) b t h = ground arith

stays-input :
    (q : Query) (c : Option Binding) (b : Binding) (bs : List Binding)
    → Fresh c (b ∷ bs)
    → takes_over q c b ≡ false
    → str_eq b.input q.input ≡ true
    → names_input q c ≡ true
unfolding keeps
stays-input q none b bs f t h = ground arith
stays-input q (some c) b bs f t h = ground arith

Fresh-tail : (c : Option Binding) (b : Binding) (bs : List Binding) → Fresh c (b ∷ bs) → Fresh c bs
Fresh-tail none b bs f = tt
Fresh-tail (some c) b bs f = f.1

names_kept :
    (st : ShortcutState) (q : Query) (bs : List Binding) (c : Option Binding)
    → names_input q c ≡ true
    → names_input q (get_active_binding st q bs c) ≡ true
names_kept st q bs =
    loop_rule (λ c. names_input q c ≡ true) st q bs
      (λ c b m u takes h. takes_over-input q c b takes h)

not_perfect : (q : Query) (b : Binding) → str_eq b.input q.input ≡ false → is_perfect q b ≡ false
unfolding is_perfect
not_perfect q b h = rw h

input_from :
    (st : ShortcutState) (q : Query) (bs : List Binding) (current : Option Binding)
    → Fresh current bs
    → Distinct bs
    → Some (λ b. is_candidate st q b && str_eq b.input q.input) bs
    → names_input q (get_active_binding st q bs current) ≡ true
unfolding get_active_binding
input_from st q [] current f v h = elim h [ ]
input_from st q (d ∷ bs) current f v h =
    let test : Binding → Bool = λ b. is_candidate st q b && str_eq b.input q.input in
    let kept = names_kept st q bs in
    elim (Bool-cases (is_candidate st q d)) [
      | inr n ↦ rw n (
          input_from st q bs current (Fresh-tail current d bs f) v.1
            (later test d bs (ground arith) h))
      | inl t ↦ elim (Bool-cases (str_eq d.input q.input)) [
        | inl i ↦ elim (Bool-cases (takes_over q current d)) [
          | inr stays ↦ rw (t, stays) (kept current (stays-input q current d bs f stays i))
          | inl takes ↦ elim (Bool-cases (is_perfect q d)) [
            | inl p ↦ rw (t, takes, p) i
            | inr p ↦ rw (t, takes, p) (kept (some d) i)
          ]
        ]
        | inr n ↦
            (let rest = later test d bs (ground arith) h in
              elim (Bool-cases (takes_over q current d)) [
                | inr stays ↦
                    rw (t, stays) (input_from st q bs current (Fresh-tail current d bs f) v.1 rest)
                | inl takes ↦
                    (let p : is_perfect q d ≡ false = not_perfect q d n in
                      rw (t, takes, p) (input_from st q bs (some d) v.0 v.1 rest))
              ])
      ]
    ]

-- A binding for the device itself is preferred: in a table of different bindings, if one that names
-- the device may be executed, then the binding found names the device.
pub get_active_binding-input :
    (st : ShortcutState) (q : Query) (bs : List Binding) (b : Binding)
    → Distinct bs
    → Some (λ c. is_candidate st q c && str_eq c.input q.input) bs
    → get_active_binding st q bs none ≡ some b
    → str_eq b.input q.input ≡ true
get_active_binding-input st q bs b v h e = rw e at (input_from st q bs none tt v h)
