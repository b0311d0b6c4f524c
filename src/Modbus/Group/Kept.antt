-- ===== src/Modbus/Group/Kept.antt =====
-- What holds of every point given to groupPoints holds of every point of every group.
use go_scada.Base.{Bool-cases, inl, inr, List, [], ◌∷◌, All, All-append}
use go_scada.Modbus.Config.{Register}
use go_scada.Modbus.Group.{
  PollPoint, ByRegister, merge_register_points, merge_all, group_points, add_point, by_register,
  points_at, same_register,
}
use go_scada.Modbus.Group.Partition.{merge_register_points-All}

module _ (P : PollPoint → Type 0) where
  abbrev AllIn : ByRegister → Type 0
  AllIn [] = Unit
  AllIn ((r, ps) ∷ m) = All P ps × AllIn m

  add_point-AllIn : (p : PollPoint) (m : ByRegister) → P p → AllIn m → AllIn (add_point p m)
  unfolding add_point
  add_point-AllIn p [] h k = ((h, tt), tt)
  add_point-AllIn p ((r, ps) ∷ m) h k = elim (Bool-cases (same_register r p.point.register)) [
    | inl e ↦ rw e (All-append P ps (p ∷ []) k.0 (h, tt), k.1)
    | inr e ↦ rw e (k.0, add_point-AllIn p m h k.1)
  ]

  by_register-AllIn :
      (m : ByRegister) (ps : List PollPoint) → All P ps → AllIn m → AllIn (by_register m ps)
  unfolding by_register
  by_register-AllIn m [] h k = k
  by_register-AllIn m (p ∷ ps) h k =
      by_register-AllIn (add_point p m) ps h.1 (add_point-AllIn p m h.0 k)

  points_at-AllIn : (r : Register) (m : ByRegister) → AllIn m → All P (points_at r m)
  unfolding points_at
  points_at-AllIn r [] k = tt
  points_at-AllIn r ((s, ps) ∷ m) k = elim (Bool-cases (same_register s r)) [
    | inl e ↦ rw e k.0
    | inr e ↦ rw e (points_at-AllIn r m k.1)
  ]

  merge_all-All :
      (m : ByRegister) (rs : List Register) → AllIn m → All (λ g. All P g.points) (merge_all m rs)
  unfolding merge_all
  merge_all-All m [] k = tt
  merge_all-All m (r ∷ rs) k =
      All-append (λ g. All P g.points) (merge_register_points r (points_at r m)) (merge_all m rs)
        (merge_register_points-All P r (points_at r m) (points_at-AllIn r m k))
        (merge_all-All m rs k)

  pub group_points-All :
      (ps : List PollPoint) → All P ps → All (λ g. All P g.points) (group_points ps)
  unfolding group_points
  group_points-All ps h = merge_all-All (by_register [] ps) _ (by_register-AllIn [] ps h tt)
