-- ===== src/Modbus/Group/Partition.antt =====
-- groupPoints neither loses, repeats nor invents a point, and mixes no two registers in a group.
use mathlib.Core.List.{Perm, append_assoc, append-nil}
use go_scada.Base.{
  ◌≡◌, inl, inr, refl, true, Bool-cases, List, [], ◌∷◌, ◌++◌, All, sort_by, sort_by-perm,
  sort_by-All, leb, ◌-◌, All-split,
}
use go_scada.Modbus.Config.{Register}
use go_scada.Modbus.Group.{
  PollPoint, PollGroup, Packing, pack, pack_all, finish, extend, open_group, next_end, no_points,
  point_less, max_quantity, merge_register_points,
}

-- The points of all groups, in order.
unfoldable pub points_of : List PollGroup → List PollPoint
points_of [] = []
points_of (g ∷ gs) = g.points ++ points_of gs

pub points_of-append :
    (gs hs : List PollGroup) → points_of (gs ++ hs) ≡ points_of gs ++ points_of hs
unfolding points_of
points_of-append [] hs = refl
points_of-append (g ∷ gs) hs = simp (points_of-append gs hs, append_assoc)

-- Nothing is lost while the loop runs.
abbrev held : Packing → List PollPoint
held s = points_of s.groups ++ s.current.points

no_points-eq_nil : (ps : List PollPoint) → no_points ps ≡ true → ps ≡ []
no_points-eq_nil [] h = refl
no_points-eq_nil (p ∷ ps) h = cc

held-pack : (r : Register) (s : Packing) (p : PollPoint) → held (pack r s p) ≡ held s ++ p ∷ []
unfolding pack open_group extend points_of
held-pack r s p = elim (Bool-cases (no_points s.current.points)) [
  | inl e ↦ rw e (rw (no_points-eq_nil s.current.points e) (simp append-nil))
  | inr e ↦
      rw e (elim (Bool-cases (leb (next_end s.current p - s.current.address) (max_quantity r))) [
        | inl fits ↦ rw fits (simp append_assoc)
        | inr over ↦ rw over (simp (points_of-append, append-nil, append_assoc))
      ])
]

held-pack_all :
    (r : Register) (s : Packing) (ps : List PollPoint) → held (pack_all r s ps) ≡ held s ++ ps
unfolding pack_all
held-pack_all r s [] = simp append-nil
held-pack_all r s (p ∷ ps) = simp (held-pack_all r (pack r s p) ps, held-pack r s p, append_assoc)

points_of-finish : (s : Packing) → points_of (finish s) ≡ held s
unfolding finish points_of
points_of-finish s = elim (Bool-cases (no_points s.current.points)) [
  | inl e ↦ rw e (rw (no_points-eq_nil s.current.points e) (simp append-nil))
  | inr e ↦ rw e (simp (points_of-append, append-nil))
]

-- The points of the groups are the points given, sorted.
points_of-merge_register_points :
    (r : Register) (ps : List PollPoint)
    → points_of (merge_register_points r ps) ≡ sort_by point_less ps
unfolding merge_register_points points_of
points_of-merge_register_points r ps = simp (points_of-finish, held-pack_all)

pub merge_register_points-perm :
    (r : Register) (ps : List PollPoint) → Perm (points_of (merge_register_points r ps)) ps
merge_register_points-perm r ps = rw points_of-merge_register_points (sort_by-perm point_less ps)

All-points_of :
    (P : PollPoint → Type 0) (gs : List PollGroup)
    → All P (points_of gs)
    → All (λ g. All P g.points) gs
unfolding points_of
All-points_of P [] h = tt
All-points_of P (g ∷ gs) h =
    let (here, rest) = All-split P g.points (points_of gs) h in (here, All-points_of P gs rest)

-- What holds of all the points holds of all the points of each group.
pub merge_register_points-All :
    (P : PollPoint → Type 0) (r : Register) (ps : List PollPoint)
    → All P ps
    → All (λ g. All P g.points) (merge_register_points r ps)
merge_register_points-All P r ps h =
    All-points_of P (merge_register_points r ps)
      (rw points_of-merge_register_points (sort_by-All point_less P ps h))
