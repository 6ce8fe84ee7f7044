-- ===== src/Common/Util.antt =====
-- `wrap` of common/util.c, on integers that do not overflow: the code calls it with an index of a
-- list, more or less one, and the length of the list.
use native.Mathlib.Nat.{mod-add-mod, add-mod_right, mod-lt}
use swirl.Prelude.{
  ap, ◌∙◌, ℕ-cases, inl, inr, ℕ, zero, suc, ◌+◌, ◌-◌, ◌%◌, ◌<◌, ◌≡◌, refl, arith, true,
  if◌then◌else◌, ltb,
}
use swirl.Prelude.Int.{ℤ, pos, negsuc}

-- `-n`
abbrev neg : ℕ → ℤ
neg zero = pos 0
neg (suc n) = negsuc n

-- `i % max`, which is rounded towards 0.
abbrev rem : ℤ → ℕ → ℤ
rem (pos a) max = pos (a % max)
rem (negsuc a) max = neg (suc a % max)

-- `i + max`
abbrev plus : ℤ → ℕ → ℤ
plus (pos a) n = pos (a + n)
plus (negsuc a) n = if ltb a n then pos (n - suc a) else negsuc (a - n)

unfoldable pub wrap : ℤ → ℕ → ℤ
wrap i max = rem (plus (rem i max) max) max

-- What `wrap` computes: the index, counted round a circle of `max` places, lies within it.
pub wrap-pos : (a max : ℕ) → wrap (pos a) max ≡ pos (a % max)
unfolding wrap
wrap-pos a max = ap pos (mod-add-mod a max max ∙ add-mod_right a max)

pub wrap-negsuc : (a max : ℕ) → 0 < max → wrap (negsuc a) max ≡ pos ((max - suc a % max) % max)
unfolding wrap
wrap-negsuc a max h =
    let small : suc a % max < max = mod-lt (suc a) h in
    elim (ℕ-cases (suc a % max)) [
      | inl e ↦
          rw (wrap, e)
            (let all : max - 0 ≡ max = omega arith in
              let also : 0 + max ≡ max = omega arith in rw (all, also) refl)
      | inr (k, e) ↦ (let less : ltb k max ≡ true = ground arith in rw (wrap, e, less) refl)
    ]
