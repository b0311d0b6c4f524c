-- ===== src/Modbus/Group/Merge.antt =====
-- The loop of mergeRegisterPoints: every group it makes covers its points and keeps the limit.
use go_scada.Base.{
  ℕ, ◌+◌, ◌-◌, ◌≤◌, ◌≡◌, ◌⊎◌, inl, inr, refl, true, false, Bool-cases, List, [], ◌∷◌, ◌++◌, arith,
  All, All-map, All-append, Any, Any-append_left, Any-append_right, Sorted, sort_by, sort_by-Sorted,
  leb, Any-map, leb→le,
}
use go_scada.Modbus.Config.{Register, Encoding, register_count}
use go_scada.Modbus.Group.{
  PollPoint, PollGroup, Packing, pack, pack_all, finish, extend, open_group, next_end, no_points,
  point_end, point_less, max_quantity, merge_register_points,
}

-- The point's registers lie in [first, end).
abbrev pub Inside : ℕ → ℕ → PollPoint → Type 0
Inside first end q = (first ≤ q.point.address) × (point_end q.point ≤ end)

abbrev pub group_end : PollGroup → ℕ
group_end g = g.address + g.quantity

-- A request that the device accepts and that is no longer than its points need.
pub record IsPacked (register : Register) (g : PollGroup) : Type 0 where
  pub non_empty : no_points g.points ≡ false
  pub same_register : g.register ≡ register
  pub inside : All (Inside g.address (group_end g)) g.points
  pub bounded : g.quantity ≤ max_quantity register
  pub starts : Any (λ q. q.point.address ≡ g.address) g.points
  pub ends : Any (λ q. point_end q.point ≡ group_end g) g.points

pub register_count_bounds : (e : Encoding) → (1 ≤ register_count e) × (register_count e ≤ 4)
unfolding register_count
register_count_bounds e = ground arith

pub max_quantity_bounds : (r : Register) → (125 ≤ max_quantity r) × (max_quantity r ≤ 2000)
unfolding max_quantity
max_quantity_bounds r = ground arith

pub record Inv (register : Register) (s : Packing) : Type 0 where
  pub closed : All (IsPacked register) s.groups
  pub opened : (no_points s.current.points ≡ true) ⊎ IsPacked register s.current

pub open_group-IsPacked : (r : Register) (p : PollPoint) → IsPacked r (open_group r p)
unfolding open_group point_end
open_group-IsPacked r p =
    ground (arith, register_count_bounds p.point.encoding, max_quantity_bounds r)

pub no_points-append : (ps : List PollPoint) (p : PollPoint) → no_points (ps ++ p ∷ []) ≡ false
no_points-append [] p = refl
no_points-append (q ∷ ps) p = refl

grow-IsPacked :
    (r : Register) (g : PollGroup) (p : PollPoint) (e q : ℕ)
    → IsPacked r g
    → g.address ≤ p.point.address
    → group_end g ≤ e
    → point_end p.point ≤ e
    → (e ≡ group_end g) ⊎ (e ≡ point_end p.point)
    → g.address + q ≡ e
    → q ≤ max_quantity r
    → IsPacked r (record g { quantity = q; points = g.points ++ p ∷ [] })
grow-IsPacked r g p e q h le old new which total fits = record {
  non_empty = no_points-append g.points p;
  same_register = h.same_register;
  inside =
      All-append (Inside g.address (g.address + q)) g.points (p ∷ [])
        (All-map (Inside g.address (group_end g)) (Inside g.address (g.address + q)) g.points
          (λ x i. (i.0, omega arith)) h.inside)
        ((le, omega arith), tt);
  bounded = fits;
  starts = Any-append_left (λ x. x.point.address ≡ g.address) g.points (p ∷ []) h.starts;
  ends = elim which [
    | inl same ↦
        Any-append_left (λ x. point_end x.point ≡ g.address + q) g.points (p ∷ [])
          (Any-map (λ x. point_end x.point ≡ group_end g) (λ x. point_end x.point ≡ g.address + q)
            g.points (λ x at. omega arith) h.ends)
    | inr last ↦
        Any-append_right (λ x. point_end x.point ≡ g.address + q) g.points (p ∷ [])
          (inl (omega arith))
  ];
}

pub next_end_bounds :
    (g : PollGroup) (p : PollPoint)
    → (group_end g ≤ next_end g p)
      × (point_end p.point ≤ next_end g p)
      × ((next_end g p ≡ group_end g) ⊎ (next_end g p ≡ point_end p.point))
unfolding next_end
next_end_bounds g p = ground arith

extend-IsPacked :
    (r : Register) (g : PollGroup) (p : PollPoint)
    → IsPacked r g
    → g.address ≤ p.point.address
    → next_end g p - g.address ≤ max_quantity r
    → IsPacked r (extend g p (next_end g p - g.address))
unfolding extend
extend-IsPacked r g p h le fits =
    let (old, new, which) = next_end_bounds g p in
    let (_, small) = max_quantity_bounds r in
    grow-IsPacked r g p (next_end g p) _ h le old new which (omega arith) (omega arith)

pub pack-Inv :
    (r : Register) (s : Packing) (p : PollPoint)
    → Inv r s
    → s.current.address ≤ p.point.address
    → Inv r (pack r s p)
unfolding pack
pack-Inv r s p h le = elim h.opened [
  | inl none_yet ↦
      rw none_yet (record { closed = h.closed; opened = inr (open_group-IsPacked r p) })
  | inr packed ↦
      elim (Bool-cases (leb (next_end s.current p - s.current.address) (max_quantity r))) [
        | inl fits ↦
            rw (packed.non_empty, fits)
              (record {
                closed = h.closed;
                opened = inr (extend-IsPacked r s.current p packed le (leb→le _ _ fits));
              })
        | inr over ↦
            rw (packed.non_empty, over)
              (record {
                closed = All-append (IsPacked r) s.groups (s.current ∷ []) h.closed (packed, tt);
                opened = inr (open_group-IsPacked r p);
              })
      ]
]

pack-address :
    (r : Register) (s : Packing) (p q : PollPoint)
    → p.point.address ≤ q.point.address
    → s.current.address ≤ q.point.address
    → (pack r s p).current.address ≤ q.point.address
unfolding pack open_group extend
pack-address r s p q h k = ground arith

abbrev pub AddressLe : PollPoint → PollPoint → Type 0
AddressLe p q = p.point.address ≤ q.point.address

pub pack-address_All :
    (r : Register) (s : Packing) (p : PollPoint) (qs : List PollPoint)
    → All (AddressLe p) qs
    → All (λ q. s.current.address ≤ q.point.address) qs
    → All (λ q. (pack r s p).current.address ≤ q.point.address) qs
pack-address_All r s p [] h k = tt
pack-address_All r s p (q ∷ qs) h k =
    (pack-address r s p q h.0 k.0, pack-address_All r s p qs h.1 k.1)

pack_all-Inv :
    (r : Register) (s : Packing) (ps : List PollPoint)
    → Inv r s
    → Sorted AddressLe ps
    → All (λ q. s.current.address ≤ q.point.address) ps
    → Inv r (pack_all r s ps)
unfolding pack_all
pack_all-Inv r s [] h sorted above = h
pack_all-Inv r s (p ∷ ps) h sorted above =
    pack_all-Inv r (pack r s p) ps (pack-Inv r s p h above.0) sorted.1
      (pack-address_All r s p ps sorted.0 above.1)

finish-IsPacked : (r : Register) (s : Packing) → Inv r s → All (IsPacked r) (finish s)
unfolding finish
finish-IsPacked r s h = elim h.opened [
  | inl none_yet ↦ rw none_yet h.closed
  | inr packed ↦
      rw packed.non_empty (All-append (IsPacked r) s.groups (s.current ∷ []) h.closed (packed, tt))
]

All-above_zero : (ps : List PollPoint) → All (λ q. 0 ≤ q.point.address) ps
All-above_zero [] = tt
All-above_zero (p ∷ ps) = (omega arith, All-above_zero ps)

pub point_less-Sorted : (ps : List PollPoint) → Sorted AddressLe (sort_by point_less ps)
unfolding point_less
point_less-Sorted =
    sort_by-Sorted point_less AddressLe (λ a b h. ground arith) (λ a b h. ground arith)
      (λ a b c h k. omega arith)

-- Every group that mergeRegisterPoints makes is within the protocol's quantity limit for the register,
-- is not empty, covers the registers of each of its points, and is no wider than they need.
pub merge_register_points-IsPacked :
    (r : Register) (ps : List PollPoint) → All (IsPacked r) (merge_register_points r ps)
unfolding merge_register_points
merge_register_points-IsPacked r ps = finish-IsPacked r _ (
    pack_all-Inv r _ (sort_by point_less ps) (record { closed = tt; opened = inl refl })
      (point_less-Sorted ps) (All-above_zero _))
