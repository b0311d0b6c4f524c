-- ===== src/Modbus/Group/Registers.antt =====
-- The partition by register of groupPoints: no point is lost, repeated or put with another register.
use mathlib.Core.List.{
  Perm, Permᴰ, perm_middle, append_assoc, append-nil, perm_append_comm, Perm-prop,
}
use mathlib.Core.List.Perm
use mathlib.Core.Logic.{∥∥₁_elim}
use go_scada.Base.{
  ◌≡◌, inl, inr, refl, sym, ap, true, false, Bool-cases, List, [], ◌∷◌, ◌++◌, arith, All,
  All-append, sort_by, sort_by-perm, subst, text_eq_iff, ◌↔◌, ◌∙◌,
}
use go_scada.Modbus.Config.{Register, other_register}
use go_scada.Modbus.Group.{
  PollPoint, PollGroup, ByRegister, merge_register_points, merge_all, group_points, add_point,
  by_register, points_at, registers_of, register_less, same_register,
}
use go_scada.Modbus.Group.Merge.{IsPacked, merge_register_points-IsPacked}
use go_scada.Modbus.Group.Partition.{
  points_of, points_of-append, merge_register_points-perm, merge_register_points-All,
}

same_register_iff : (r s : Register) → (same_register r s ≡ true) ↔ (r ≡ s)
unfolding same_register
same_register_iff (other_register s) (other_register t) = ground (arith, text_eq_iff s t)
same_register_iff r s = ground arith

entries : ByRegister → List PollPoint
entries [] = []
entries ((r, ps) ∷ m) = ps ++ entries m

abbrev At : Register → PollPoint → Type 0
At r q = q.point.register ≡ r

-- Each register has one entry, with its own points.
abbrev Fresh : Register → ByRegister → Type 0
Fresh r m = All (λ s. same_register r s ≡ false) (registers_of m)

abbrev IsPartition : ByRegister → Type 0
IsPartition [] = Unit
IsPartition ((r, ps) ∷ m) = Fresh r m × All (At r) ps × IsPartition m

add_point-perm : (p : PollPoint) (m : ByRegister) → Perm (entries (add_point p m)) (p ∷ entries m)
unfolding add_point entries
add_point-perm p [] = Perm.refl _
add_point-perm p ((r, ps) ∷ m) = elim (Bool-cases (same_register r p.point.register)) [
  | inl e ↦ rw e (rw append_assoc (perm_middle ps (entries m)))
  | inr e ↦
      rw e (Perm.trans (Perm.append_left ps (add_point-perm p m)) (perm_middle ps (entries m)))
]

add_point-Fresh :
    (r : Register) (p : PollPoint) (m : ByRegister)
    → same_register r p.point.register ≡ false
    → Fresh r m
    → Fresh r (add_point p m)
unfolding add_point registers_of
add_point-Fresh r p [] h k = (h, tt)
add_point-Fresh r p ((s, ps) ∷ m) h k = elim (Bool-cases (same_register s p.point.register)) [
  | inl e ↦ rw e k
  | inr e ↦ rw e (k.0, add_point-Fresh r p m h k.1)
]

add_point-IsPartition :
    (p : PollPoint) (m : ByRegister) → IsPartition m → IsPartition (add_point p m)
unfolding add_point registers_of
add_point-IsPartition p [] h = (tt, (refl, tt), tt)
add_point-IsPartition p ((r, ps) ∷ m) h = elim (Bool-cases (same_register r p.point.register)) [
  | inl e ↦ rw e (
    h.0,
    All-append (At r) ps (p ∷ []) h.1 (sym ((same_register_iff r p.point.register).0 e), tt),
    h.2,
  )
  | inr e ↦ rw e (add_point-Fresh r p m e h.0, h.1, add_point-IsPartition p m h.2)
]

by_register-perm :
    (m : ByRegister) (ps : List PollPoint) → Perm (entries (by_register m ps)) (ps ++ entries m)
unfolding by_register
by_register-perm m [] = Perm.refl _
by_register-perm m (p ∷ ps) =
    Perm.trans (by_register-perm (add_point p m) ps)
      (Perm.trans (Perm.append_left ps (add_point-perm p m)) (perm_middle ps (entries m)))

by_register-IsPartition :
    (m : ByRegister) (ps : List PollPoint) → IsPartition m → IsPartition (by_register m ps)
unfolding by_register
by_register-IsPartition m [] h = h
by_register-IsPartition m (p ∷ ps) h =
    by_register-IsPartition (add_point p m) ps (add_point-IsPartition p m h)

-- The points under the registers, in their order.
collect : ByRegister → List Register → List PollPoint
collect m [] = []
collect m (r ∷ rs) = points_at r m ++ collect m rs

collect-Fresh :
    (r : Register) (ps : List PollPoint) (m : ByRegister) (rs : List Register)
    → All (λ s. same_register r s ≡ false) rs
    → collect ((r, ps) ∷ m) rs ≡ collect m rs
unfolding collect points_at
collect-Fresh r ps m [] h = refl
collect-Fresh r ps m (s ∷ rs) h =
    rw h.0 (ap (λ l. points_at s m ++ l) (collect-Fresh r ps m rs h.1))

collect_nil : (m : ByRegister) → collect m [] ≡ []
unfolding collect
collect_nil m = refl

collect_cons :
    (r : Register) (ps : List PollPoint) (m : ByRegister) (rs : List Register)
    → collect ((r, ps) ∷ m) (r ∷ rs) ≡ ps ++ collect ((r, ps) ∷ m) rs
unfolding collect points_at
collect_cons r ps m rs = rw ((same_register_iff r r).1 refl)

collect-registers_of : (m : ByRegister) → IsPartition m → collect m (registers_of m) ≡ entries m
unfolding registers_of entries
collect-registers_of [] h = collect_nil []
collect-registers_of ((r, ps) ∷ m) h =
    collect_cons r ps m (registers_of m)
    ∙ ap (λ l. ps ++ l) (collect-Fresh r ps m (registers_of m) h.0 ∙ collect-registers_of m h.2)

swap_blocks : (a b c : List PollPoint) → Perm (a ++ (b ++ c)) (b ++ (a ++ c))
swap_blocks a b c =
    subst (λ l. Perm l (b ++ (a ++ c))) (append_assoc a b c)
      (subst (λ l. Perm ((a ++ b) ++ c) l) (append_assoc b a c)
        (Perm.append_right c (perm_append_comm a b)))

collect-permᴰ :
    (m : ByRegister) {rs ss : List Register} → Permᴰ rs ss → Perm (collect m rs) (collect m ss)
unfolding collect
collect-permᴰ m Permᴰ.nil = Perm.refl _
collect-permᴰ m (Permᴰ.cons {b = b} e p) =
    rw e (Perm.append_left (points_at b m) (collect-permᴰ m p))
collect-permᴰ m (Permᴰ.swap {a' = a'} {b' = b'} {l = l} e f) =
    rw (e, f) (swap_blocks (points_at b' m) (points_at a' m) (collect m l))
collect-permᴰ m (Permᴰ.trans p q) = Perm.trans (collect-permᴰ m p) (collect-permᴰ m q)

collect-perm :
    (m : ByRegister) {rs ss : List Register} → Perm rs ss → Perm (collect m rs) (collect m ss)
collect-perm m p = ∥∥₁_elim p Perm-prop (collect-permᴰ m)

merge_all-perm :
    (m : ByRegister) (rs : List Register) → Perm (points_of (merge_all m rs)) (collect m rs)
unfolding merge_all collect points_of
merge_all-perm m [] = Perm.refl _
merge_all-perm m (r ∷ rs) =
    rw points_of-append
      (Perm.append (merge_register_points-perm r (points_at r m)) (merge_all-perm m rs))

by_register_all-perm : (ps : List PollPoint) → Perm (entries (by_register [] ps)) ps
unfolding entries
by_register_all-perm ps = rw append-nil at (by_register-perm [] ps)

-- Every point given is in one group, and no other point is: the points of the groups are a
-- permutation of the points given.
pub group_points-perm : (ps : List PollPoint) → Perm (points_of (group_points ps)) ps
unfolding group_points
group_points-perm ps =
    let m = by_register [] ps in
    let parts = by_register-IsPartition [] ps tt in
    Perm.trans (merge_all-perm m (sort_by register_less (registers_of m))) (
      Perm.trans (collect-perm m (sort_by-perm register_less (registers_of m)))
        (rw (collect-registers_of m parts) (by_register_all-perm ps)))

points_at-At : (r : Register) (m : ByRegister) → IsPartition m → All (At r) (points_at r m)
unfolding points_at
points_at-At r [] h = tt
points_at-At r ((s, ps) ∷ m) h = elim (Bool-cases (same_register s r)) [
  | inl e ↦ rw (e, ← (same_register_iff s r).0 e) h.1
  | inr e ↦ rw e (points_at-At r m h.2)
]

-- A group that the device can read in one request: packed, over points of its own register.
pub record IsRequest (g : PollGroup) : Type 0 where
  pub packed : IsPacked g.register g
  pub registers : All (λ q. q.point.register ≡ g.register) g.points

both :
    (r : Register) (gs : List PollGroup)
    → All (IsPacked r) gs
    → All (λ g. All (At r) g.points) gs
    → All IsRequest gs
both r [] h k = tt
both r (g ∷ gs) h k = (one, both r gs h.1 k.1)
  where
    one : IsRequest g
    one =
        let same = sym h.0.same_register in
        record {
          packed = subst (λ s. IsPacked s g) same h.0;
          registers = subst (λ s. All (At s) g.points) same k.0;
        }

merge_all-IsRequest :
    (m : ByRegister) (rs : List Register) → IsPartition m → All IsRequest (merge_all m rs)
unfolding merge_all
merge_all-IsRequest m [] h = tt
merge_all-IsRequest m (r ∷ rs) h =
    All-append IsRequest (merge_register_points r (points_at r m)) (merge_all m rs)
      (both r (merge_register_points r (points_at r m))
        (merge_register_points-IsPacked r (points_at r m))
        (merge_register_points-All (At r) r (points_at r m) (points_at-At r m h)))
      (merge_all-IsRequest m rs h)

-- Every group of groupPoints is one request: within the quantity limit of its register, not empty,
-- over points of that register only, covering each of them, and no wider than they need.
pub group_points-IsRequest : (ps : List PollPoint) → All IsRequest (group_points ps)
unfolding group_points
group_points-IsRequest ps =
    merge_all-IsRequest (by_register [] ps) _ (by_register-IsPartition [] ps tt)
