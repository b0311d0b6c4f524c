-- ===== src/Modbus/Group/Fewest.antt =====
-- mergeRegisterPoints makes as few requests as any covering of the points by allowed requests.
use go_scada.Base.{
  ℕ, ◌+◌, ◌-◌, ◌≤◌, ◌<◌, ◌≡◌, inl, inr, refl, true, false, Bool-cases, List, [], ◌∷◌, ◌++◌, arith,
  All, All-map, All-append, Any, Sorted, length, leb, sort_by, pigeonhole, Any-map,
}
use go_scada.Modbus.Config.{Register}
use go_scada.Modbus.Group.{
  PollPoint, PollGroup, Packing, pack, pack_all, finish, extend, open_group, next_end, empty_group,
  no_points, point_end, u16, point_less, max_quantity, merge_register_points,
}
use go_scada.Modbus.Group.Partition.{merge_register_points-All}
use go_scada.Modbus.Group.Merge.{
  AddressLe, point_less-Sorted, max_quantity_bounds, next_end_bounds, open_group-IsPacked,
  pack-address_All, no_points-append,
}

-- The first point satisfies `P`.
abbrev Head : (PollPoint → Type 0) → List PollPoint → Type 0
Head P [] = ⊥
Head P (p ∷ ps) = P p

Head-append : (P : PollPoint → Type 0) (ps qs : List PollPoint) → Head P ps → Head P (ps ++ qs)
Head-append P [] qs h = absurd h
Head-append P (p ∷ ps) qs h = h

module _ (r : Register) where
  -- `h` opens with a point that no allowed request shares with the first point of `g`.
  abbrev Apart : PollGroup → PollGroup → Type 0
  Apart g h =
      (g.address ≤ h.address) × Head (λ p. g.address + max_quantity r < point_end p.point) h.points

  record Spread (s : Packing) : Type 0 where
    closed : Sorted Apart s.groups
    before : All (λ g. Apart g s.current) s.groups
    heads : All (λ g. Head (λ p. p.point.address ≡ g.address) g.points) s.groups
    head : Head (λ p. p.point.address ≡ s.current.address) s.current.points
    size : s.current.quantity ≤ max_quantity r

  Sorted-append :
      (gs : List PollGroup) (h : PollGroup)
      → Sorted Apart gs
      → All (λ g. Apart g h) gs
      → Sorted Apart (gs ++ h ∷ [])
  Sorted-append [] h s a = (tt, tt)
  Sorted-append (g ∷ gs) h s a =
      (All-append (Apart g) gs (h ∷ []) s.0 (a.0, tt), Sorted-append gs h s.1 a.1)

  fitting :
      (p : PollPoint) (g : PollGroup)
      → leb (next_end g p - g.address) (max_quantity r) ≡ true
      → u16 (next_end g p - g.address) ≤ max_quantity r
  fitting p g h = ground (arith, max_quantity_bounds r)

  past :
      (p : PollPoint) (g : PollGroup)
      → g.quantity ≤ max_quantity r
      → leb (next_end g p - g.address) (max_quantity r) ≡ false
      → g.address + max_quantity r < point_end p.point
  past p g size over = ground (arith, next_end_bounds g p)

  pack-Spread :
      (s : Packing) (p : PollPoint)
      → Spread s
      → s.current.address ≤ p.point.address
      → no_points s.current.points ≡ false
      → Spread (pack r s p)
  unfolding pack open_group extend
  pack-Spread s p h le some_points =
      elim (Bool-cases (leb (next_end s.current p - s.current.address) (max_quantity r))) [
        | inl fits ↦
            rw (some_points, fits)
              (record {
                closed = h.closed;
                before =
                    All-map (λ g. Apart g s.current) _ s.groups
                      (λ g a. (a.0, Head-append _ s.current.points (p ∷ []) a.1)) h.before;
                heads = h.heads;
                head = Head-append _ s.current.points (p ∷ []) h.head;
                size = fitting p s.current fits;
              })
        | inr over ↦
            rw (some_points, over)
              (record {
                closed = Sorted-append s.groups s.current h.closed h.before;
                before =
                    All-append _ s.groups (s.current ∷ [])
                      (All-map (λ g. Apart g s.current) _ s.groups
                        (λ g a. (omega arith, omega (arith, past p s.current h.size over)))
                        h.before)
                      ((le, past p s.current h.size over), tt);
                heads = All-append _ s.groups (s.current ∷ []) h.heads (h.head, tt);
                head = refl;
                size = (open_group-IsPacked r p).bounded;
              })
      ]

  pack-some_points : (s : Packing) (p : PollPoint) → no_points (pack r s p).current.points ≡ false
  unfolding pack open_group extend
  pack-some_points s p = elim (Bool-cases (no_points s.current.points)) [
    | inl e ↦ rw e
    | inr e ↦
        rw e (elim (Bool-cases (leb (next_end s.current p - s.current.address) (max_quantity r))) [
          | inl fits ↦ rw fits (no_points-append s.current.points p)
          | inr over ↦ rw over
        ])
  ]

  pack_all-Spread :
      (s : Packing) (ps : List PollPoint)
      → Spread s
      → Sorted AddressLe ps
      → All (λ q. s.current.address ≤ q.point.address) ps
      → no_points s.current.points ≡ false
      → Spread (pack_all r s ps) × (no_points (pack_all r s ps).current.points ≡ false)
  unfolding pack_all
  pack_all-Spread s [] h sorted above some_points = (h, some_points)
  pack_all-Spread s (p ∷ ps) h sorted above some_points =
      pack_all-Spread (pack r s p) ps (pack-Spread s p h above.0 some_points) sorted.1
        (pack-address_All r s p ps sorted.0 above.1) (pack-some_points s p)

  -- Groups in their order, none of which can share a request with an earlier one.
  record IsSpread (gs : List PollGroup) : Type 0 where
    apart : Sorted Apart gs
    heads : All (λ g. Head (λ p. p.point.address ≡ g.address) g.points) gs

  finish-IsSpread :
      (s : Packing) → Spread s → no_points s.current.points ≡ false → IsSpread (finish s)
  unfolding finish
  finish-IsSpread s h some_points = rw some_points (record {
    apart = Sorted-append s.groups s.current h.closed h.before;
    heads = All-append _ s.groups (s.current ∷ []) h.heads (h.head, tt);
  })

  first-Spread : (p : PollPoint) → Spread (pack r (record { current = empty_group; groups = [] }) p)
  unfolding pack open_group
  first-Spread p = record {
    closed = tt;
    before = tt;
    heads = tt;
    head = refl;
    size = (open_group-IsPacked r p).bounded;
  }

  first-address :
      (p : PollPoint) (ps : List PollPoint)
      → All (AddressLe p) ps
      → All
          (λ q.
            (pack r (record { current = empty_group; groups = [] }) p).current.address
            ≤ q.point.address)
          ps
  unfolding pack open_group
  first-address p ps h = h

  Sorted-IsSpread :
      (ps : List PollPoint)
      → Sorted AddressLe ps
      → IsSpread (finish (pack_all r (record { current = empty_group; groups = [] }) ps))
  unfolding pack_all finish
  Sorted-IsSpread [] h = record { apart = tt; heads = tt }
  Sorted-IsSpread (p ∷ ps) h =
      let s = pack r (record { current = empty_group; groups = [] }) p in
      let (spread, some_points) =
        pack_all-Spread s ps (first-Spread p) h.1 (first-address p ps h.0) (pack-some_points _ p) in
      finish-IsSpread (pack_all r s ps) spread some_points

-- The registers [first, first + size) of one request that the device allows for the register.
pub record Request (r : Register) : Type 0 where
  pub first : ℕ
  pub size : ℕ
  pub allowed : size ≤ max_quantity r

-- The request covers the point's registers.
abbrev pub Covers : (r : Register) → PollPoint → Request r → Type 0
Covers r p w = (w.first ≤ p.point.address) × (point_end p.point ≤ w.first + w.size)

module _ (r : Register) where
  -- The request covers the first point of a group that starts at the address.
  abbrev CoversHead : ℕ → List PollPoint → Request r → Type 0
  CoversHead a ps w = Head (λ p. (p.point.address ≡ a) × Covers r p w) ps

  abbrev CoversGroup : PollGroup → Request r → Type 0
  CoversGroup g = CoversHead g.address g.points

  heads_apart :
      (a b : ℕ) (ps qs : List PollPoint) (w : Request r)
      → Head (λ q. a + max_quantity r < point_end q.point) qs
      → CoversHead a ps w
      → CoversHead b qs w
      → ⊥
  heads_apart a b [] qs w far i j = i
  heads_apart a b (p ∷ ps) [] w far i j = j
  heads_apart a b (p ∷ ps) (q ∷ qs) w far i j = omega (arith, i.0, i.1.0, j.1.1, far, w.allowed)

  Head-covered :
      (a : ℕ) (ps : List PollPoint) (ws : List (Request r))
      → Head (λ p. p.point.address ≡ a) ps
      → All (λ p. Any (Covers r p) ws) ps
      → Any (CoversHead a ps) ws
  Head-covered a [] ws h k = absurd h
  Head-covered a (p ∷ ps) ws h k =
      Any-map (Covers r p) (λ w. (p.point.address ≡ a) × Covers r p w) ws (λ w c. (h, c)) k.0

  groups_covered :
      (gs : List PollGroup) (ws : List (Request r))
      → All (λ g. Head (λ p. p.point.address ≡ g.address) g.points) gs
      → All (λ g. All (λ p. Any (Covers r p) ws) g.points) gs
      → All (λ g. Any (CoversGroup g) ws) gs
  groups_covered [] ws h k = tt
  groups_covered (g ∷ gs) ws h k =
      (Head-covered g.address g.points ws h.0 k.0, groups_covered gs ws h.1 k.1)

  -- mergeRegisterPoints makes the fewest requests: any list of requests within the quantity limit that
  -- covers the registers of every point is at least as long as the list of its groups.
  pub merge_register_points-fewest :
      (ps : List PollPoint) (ws : List (Request r))
      → All (λ p. Any (Covers r p) ws) ps
      → length (merge_register_points r ps) ≤ length ws
  unfolding merge_register_points
  merge_register_points-fewest ps ws h =
      let spread = Sorted-IsSpread r (sort_by point_less ps) (point_less-Sorted ps) in
      pigeonhole CoversGroup (Apart r)
        (λ g k w far i j. heads_apart g.address k.address g.points k.points w far.1 i j)
        (merge_register_points r ps) ws spread.apart
        (groups_covered (merge_register_points r ps) ws spread.heads
          (merge_register_points-All (λ p. Any (Covers r p) ws) r ps h))
