-- ===== src/Tree/Links/Depth.antt =====
-- The depth of the pending tree (sway/tree/container.c) below a container, and how detaching and
-- placing other containers change it.
use swirl.Prelude.{
  ℕ, zero, suc, ◌==◌, ◌≡◌, refl, false, List, [], ◌∷◌, inl, inr, Bool-cases, ==_iff,
}
use swirl.Prelude.Members.{unlink}
use swirl.Tree.Links.{set_at}

-- The tree below the listed containers is no deeper than that.
abbrev pub Within : (ℕ → List ℕ) → ℕ → List ℕ → Type 0
Within children zero cs = cs ≡ []
Within children (suc depth) [] = Unit
Within children (suc depth) (c ∷ cs) =
    Within children depth (children c) × Within children (suc depth) cs

-- The node `q` is none of the listed containers nor below them.
abbrev pub Avoids : (ℕ → List ℕ) → ℕ → ℕ → List ℕ → Type 0
Avoids children q zero cs = Unit
Avoids children q (suc depth) [] = Unit
Avoids children q (suc depth) (c ∷ cs) =
    ((q == c) ≡ false) × Avoids children q depth (children c) × Avoids children q (suc depth) cs

module _ (i : ℕ) where
  Within-unlink_list :
      (ch : ℕ → List ℕ) (depth : ℕ) (cs : List ℕ)
      → Within ch depth cs
      → Within ch depth (unlink i cs)
  Within-unlink_list ch zero cs h = rw h refl
  Within-unlink_list ch (suc depth) [] h = tt
  Within-unlink_list ch (suc depth) (c ∷ cs) h = elim (Bool-cases (c == i)) [
    | inl e ↦ rw e h.1
    | inr e ↦ rw e (h.0, Within-unlink_list ch (suc depth) cs h.1)
  ]

  Avoids-unlink_list :
      (ch : ℕ → List ℕ) (q depth : ℕ) (cs : List ℕ)
      → Avoids ch q depth cs
      → Avoids ch q depth (unlink i cs)
  Avoids-unlink_list ch q zero cs h = tt
  Avoids-unlink_list ch q (suc depth) [] h = tt
  Avoids-unlink_list ch q (suc depth) (c ∷ cs) h = elim (Bool-cases (c == i)) [
    | inl e ↦ rw e h.2
    | inr e ↦ rw e (h.0, h.1, Avoids-unlink_list ch q (suc depth) cs h.2)
  ]

module _ (ch : ℕ → List ℕ) (a i : ℕ) where
  -- Taking a container out of one list leaves the tree as deep as it was, or less.
  pub Within-unlink :
      (depth : ℕ) (cs : List ℕ)
      → Within ch depth cs
      → Within (set_at ch a (unlink i (ch a))) depth cs
  Within-unlink zero cs h = h
  Within-unlink (suc depth) [] h = tt
  Within-unlink (suc depth) (c ∷ cs) h = (
    elim (Bool-cases (a == c)) [
      | inl e ↦
          (let same = (==_iff a c).0 e in
            rw e (
              Within-unlink_list i _ depth (ch a)
                (rw (← same) at (Within-unlink depth (ch c) h.0))))
      | inr e ↦ rw e (Within-unlink depth (ch c) h.0)
    ],
    Within-unlink (suc depth) cs h.1,
  )

  pub Avoids-unlink :
      (q depth : ℕ) (cs : List ℕ)
      → Avoids ch q depth cs
      → Avoids (set_at ch a (unlink i (ch a))) q depth cs
  Avoids-unlink q zero cs h = tt
  Avoids-unlink q (suc depth) [] h = tt
  Avoids-unlink q (suc depth) (c ∷ cs) h = (
    h.0,
    elim (Bool-cases (a == c)) [
      | inl e ↦
          (let same = (==_iff a c).0 e in
            rw e (
              Avoids-unlink_list i _ q depth (ch a)
                (rw (← same) at (Avoids-unlink q depth (ch c) h.1))))
      | inr e ↦ rw e (Avoids-unlink q depth (ch c) h.1)
    ],
    Avoids-unlink q (suc depth) cs h.2,
  )

-- A change of the children of a node outside does not show.
pub Within-set_at :
    (ch : ℕ → List ℕ) (q : ℕ) (xs : List ℕ) (depth : ℕ) (cs : List ℕ)
    → Within ch depth cs
    → Avoids ch q depth cs
    → Within (set_at ch q xs) depth cs
Within-set_at ch q xs zero cs h k = h
Within-set_at ch q xs (suc depth) [] h k = tt
Within-set_at ch q xs (suc depth) (c ∷ cs) h k = (
  rw (k.0) (Within-set_at ch q xs depth (ch c) h.0 k.1),
  Within-set_at ch q xs (suc depth) cs h.1 k.2,
)
