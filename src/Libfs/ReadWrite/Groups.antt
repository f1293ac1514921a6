-- ===== src/Libfs/ReadWrite/Groups.antt =====
-- The dirty page groups that a write marks for the daemon.
use oxbow.Prelude.{
  ℕ, zero, suc, ◌+◌, ◌/◌, ◌%◌, ◌≤◌, ◌<◌, ◌≡◌, refl, ap, ◌∙◌, ◌⊎◌, inl, inr, true, false, arith, ltb,
  ◌==◌, if◌then◌else◌, ltb→lt, lt→ltb, le→ltb, ==_iff, Bool-cases,
}
use native.Mathlib.Decide.{ℕ_discrete}
use oxbow.ShmLayout.{ShmFile}
use oxbow.ShmLayout.AllocCheck.{set_bit_of_block}
use oxbow.Libfs.ReadWrite.{dirty_page_group, dirty_groups, dirty_groups_from}

group_marked :
    (h : ShmFile) (pi g : ℕ)
    → pi < 268435456
    → (dirty_page_group pi h).dirty_group g ≡ (if pi / 8192 == g then true else h.dirty_group g)
unfolding dirty_page_group
group_marked h pi g small = ap (λ f. f g) (set_bit_of_block h.dirty_group pi small)

stays_marked :
    (h : ShmFile) (pi g : ℕ)
    → pi < 268435456
    → h.dirty_group g ≡ true
    → (dirty_page_group pi h).dirty_group g ≡ true
stays_marked h pi g small e =
    group_marked h pi g small
    ∙ elim (Bool-cases (pi / 8192 == g)) [ inl here ↦ rw here refl | inr other ↦ rw other e ]

from-kept :
    (fuel pi last : ℕ) (h : ShmFile)
    → dirty_groups_from fuel pi last h
      ≡ record h { dirty_group = (dirty_groups_from fuel pi last h).dirty_group }
unfolding dirty_groups_from dirty_page_group
from-kept zero pi last h = refl
from-kept (suc fuel) pi last h = elim (Bool-cases (ltb pi last)) [
  | inl more ↦ rw more (from-kept fuel (pi + 8192) last (dirty_page_group pi h))
  | inr end ↦ rw end refl
]

pub dirty_groups-kept :
    (count first last : ℕ) (h : ShmFile)
    → dirty_groups count first last h
      ≡ record h { dirty_group = (dirty_groups count first last h).dirty_group }
unfolding dirty_groups dirty_page_group
dirty_groups-kept count first last h = elim (Bool-cases (ltb 33554432 count)) [
  | inl large ↦ rw large (from-kept (last / 8192 + 1) first last h)
  | inr fits ↦
      rw fits (elim (Bool-cases (last == first)) [ inl one ↦ rw one refl | inr two ↦ rw two refl ])
]

from-stays :
    (fuel pi last g : ℕ) (h : ShmFile)
    → last < 268435456
    → h.dirty_group g ≡ true
    → (dirty_groups_from fuel pi last h).dirty_group g ≡ true
unfolding dirty_groups_from
from-stays zero pi last g h small e = e
from-stays (suc fuel) pi last g h small e = elim (Bool-cases (ltb pi last)) [
  | inl more ↦ rw more (
      from-stays fuel (pi + 8192) last g (dirty_page_group pi h) small
        (stays_marked h pi g (omega (arith, ltb→lt _ _ more, small)) e))
  | inr end ↦ rw end e
]

from-marks :
    (fuel pi last g : ℕ) (h : ShmFile)
    → last < 268435456
    → pi / 8192 ≤ g
    → g < last / 8192
    → g < pi / 8192 + fuel
    → (dirty_groups_from fuel pi last h).dirty_group g ≡ true
unfolding dirty_groups_from
from-marks zero pi last g h small lo hi enough = absurd (omega (arith, lo, enough))
from-marks (suc fuel) pi last g h small lo hi enough =
    let more : ltb pi last ≡ true = lt→ltb _ _ (omega (arith, lo, hi)) in
    let pi_small : pi < 268435456 = omega (arith, lo, hi, small) in
    rw more (elim (ℕ_discrete (pi / 8192) g) [
      | yes here ↦
          let t : (pi / 8192 == g) ≡ true = (==_iff _ _).1 here in
          from-stays fuel (pi + 8192) last g (dirty_page_group pi h) small
            (group_marked h pi g pi_small ∙ rw t refl)
      | no later ↦
          from-marks fuel (pi + 8192) last g (dirty_page_group pi h) small
            (omega (arith, lo, later)) hi (omega (arith, enough))
    ])

from-misses :
    (fuel pi last : ℕ) (h : ShmFile)
    → last < 268435456
    → last % 8192 ≤ pi % 8192
    → (dirty_groups_from fuel pi last h).dirty_group (last / 8192) ≡ h.dirty_group (last / 8192)
unfolding dirty_groups_from
from-misses zero pi last h small le = refl
from-misses (suc fuel) pi last h small le = elim (Bool-cases (ltb pi last)) [
  | inl more ↦
      let lt = ltb→lt _ _ more in
      let other : (pi / 8192 == last / 8192) ≡ false = ground (arith, lt, le) in
      rw more (
        from-misses fuel (pi + 8192) last (dirty_page_group pi h) small (omega (arith, le))
        ∙ group_marked h pi (last / 8192) (omega (arith, lt, small))
        ∙ rw other refl)
  | inr end ↦ rw end refl
]

two_groups :
    (first last g : ℕ) (h : ShmFile)
    → first ≤ last
    → last < 268435456
    → (if last == first
          then dirty_page_group first h
          else dirty_page_group last (dirty_page_group first h)).dirty_group
        g
      ≡ (if last / 8192 == g then true else if first / 8192 == g then true else h.dirty_group g)
two_groups first last g h le small = elim (Bool-cases (last == first)) [
  | inl one ↦
      let e : last ≡ first = (==_iff _ _).0 one in
      let m = group_marked h first g (omega (arith, le, small)) in
      rw one (
        m ∙ elim (Bool-cases (first / 8192 == g)) [
          | inl here ↦ rw (e, here) refl
          | inr other ↦ rw (e, other) refl
        ])
  | inr two ↦ rw two (
      group_marked (dirty_page_group first h) last g small
      ∙ ap (λ b. if last / 8192 == g then true else b)
          (group_marked h first g (omega (arith, le, small))))
]

-- A write of at most 32 MB to the pages `first` to `last`, at most 8193 pages below 1 TB, marks the groups
-- of its pages, and no group before or behind them. A longer one marks the groups of its pages in front of the last group; the last group
-- itself it leaves as it is when the last page stands no later in its group than the first page in its.
pub dirty_groups-marks :
    (count first last : ℕ) (h : ShmFile)
    → first ≤ last
    → last < 268435456
    → let h' = dirty_groups count first last h in
      (count ≤ 33554432
        → last ≤ first + 8192
        → ((q : ℕ) → first ≤ q → q ≤ last → h'.dirty_group (q / 8192) ≡ true)
          × ((g : ℕ) → (g < first / 8192) ⊎ (last / 8192 < g) → h'.dirty_group g ≡ h.dirty_group g))
      × (33554432 < count
          → ((q : ℕ) → first ≤ q → q / 8192 < last / 8192 → h'.dirty_group (q / 8192) ≡ true)
            × (last % 8192 ≤ first % 8192
                → h'.dirty_group (last / 8192) ≡ h.dirty_group (last / 8192)))
unfolding dirty_groups
dirty_groups-marks count first last h le small = (
  λ fits near.
      let t : ltb 33554432 count ≡ false = le→ltb _ _ fits in
      rw t (
        λ q lo hi.
            two_groups first last (q / 8192) h le small
            ∙ elim (Bool-cases (last / 8192 == q / 8192)) [
              | inl end ↦ rw end refl
              | inr early ↦
                  let here : (first / 8192 == q / 8192) ≡ true =
                    ground (arith, early, lo, hi, near) in
                  rw (early, here) refl
            ],
        λ g out.
            let a : (last / 8192 == g) ≡ false = ground (arith, out, le) in
            let b : (first / 8192 == g) ≡ false = ground (arith, out, le) in
            two_groups first last g h le small ∙ rw (a, b) refl,
      ),
  λ large.
      let t : ltb 33554432 count ≡ true = lt→ltb _ _ large in
      rw t (
        λ q lo hi.
            from-marks (last / 8192 + 1) first last (q / 8192) h small (omega (arith, lo)) hi
              (omega (arith, hi)),
        λ later. from-misses (last / 8192 + 1) first last h small later,
      ),
)
