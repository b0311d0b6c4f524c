-- ===== src/Retain/Server/Listing.antt =====
-- What handleList of retain/server.go lists.
use go_scada.Base.{
  Text, false, ◌&&◌, ◌||◌, ◌≡◌, List, [], ◌∷◌, ◌++◌, Option, none, some, codes, is_some, cut_prefix,
  text_lt, text_eq, text_eq_iff, mem_text, mem_text-any, text_eq-cut_prefix, text_lt_asym,
  text_le_trans, sort_by, any-sort_by, Sorted, sort_by-Sorted, keys, lookup, Dict, refl, sym, ◌∙◌,
  ap, arith, Bool-cases, inl, inr, subst, text_eq_refl, is_empty, if◌then◌else◌,
}
use go_scada.Retain.Store.{Payload, Store, get, subjects}
use go_scada.Retain.Server.{
  ListRequest, selects, add_matched, matched, list_matched, Message, handle_list, listed, every,
  respond_list,
}

mem_text-keys : (k : Text) (m : Dict Payload) → mem_text k (keys m) ≡ is_some (lookup k m)
unfolding mem_text lookup
mem_text-keys k [] = refl
mem_text-keys k ((j, v) ∷ m) = ground (arith, mem_text-keys k m)

mem_text_self :
    (request : ListRequest) (relative : Text) (rest : List Text)
    → mem_text relative (add_matched request (some relative) rest)
      ≡ ((selects request relative && text_eq relative relative) || mem_text relative rest)
unfolding add_matched mem_text
mem_text_self request relative rest = elim (Bool-cases (selects request relative)) [
  | inl e ↦ rw (e, text_eq_refl) refl
  | inr e ↦ rw e refl
]

mem_text-add_matched :
    (request : ListRequest) (relative : Text) (o : Option Text) (rest : List Text)
    → mem_text relative (add_matched request o rest) ≡ (
        (selects request relative && elim o [ none ↦ false | some cut ↦ text_eq cut relative ])
        || mem_text relative rest)
unfolding add_matched mem_text
mem_text-add_matched request relative none rest = ground arith
mem_text-add_matched request relative (some cut) rest = elim (Bool-cases (text_eq cut relative)) [
  | inl e ↦
      subst
        (λ cut.
          mem_text relative (add_matched request (some cut) rest)
          ≡ ((selects request relative && text_eq cut relative) || mem_text relative rest))
        (sym ((text_eq_iff cut relative).0 e)) (mem_text_self request relative rest)
  | inr e ↦ ground (arith, e)
]

mem_text-matched :
    (prefix relative : Text) (request : ListRequest) (fulls : List Text)
    → mem_text relative (matched prefix request fulls)
      ≡ (selects request relative && mem_text (prefix ++ relative) fulls)
unfolding matched mem_text
mem_text-matched prefix relative request [] = ground arith
mem_text-matched prefix relative request (full ∷ fulls) =
    mem_text-add_matched request relative (cut_prefix full prefix) (matched prefix request fulls)
    ∙ ground (
      arith,
      mem_text-matched prefix relative request fulls,
      text_eq-cut_prefix full prefix relative,
    )

-- The order of sort.Strings: no text stands before one that is less.
abbrev pub NotAbove : Text → Text → Type 0
NotAbove s t = text_lt t s ≡ false

list_matched-lists :
    (system : Text) (request : ListRequest) (s : Store)
    → ((relative : Text)
        → mem_text relative (list_matched system request s)
          ≡ (selects request relative && is_some (get ((system ++ codes ".") ++ relative) s)))
      × Sorted NotAbove (list_matched system request s)
unfolding list_matched get subjects
list_matched-lists system request s = (
  λ relative.
      mem_text-any relative
        (sort_by text_lt (matched (system ++ codes ".") request (keys s.values)))
      ∙ any-sort_by text_lt (λ t. text_eq t relative)
          (matched (system ++ codes ".") request (keys s.values))
      ∙ sym (mem_text-any relative (matched (system ++ codes ".") request (keys s.values)))
      ∙ mem_text-matched (system ++ codes ".") relative request (keys s.values)
      ∙ ap (λ b. selects request relative && b)
          (mem_text-keys ((system ++ codes ".") ++ relative) s.values),
  sort_by-Sorted text_lt NotAbove text_lt_asym (λ a b h. h) text_le_trans
      (matched (system ++ codes ".") request (keys s.values)),
)

-- A request that asks for an answer and is empty or decodes is answered by a list. It holds a subject
-- exactly if the store has a value for it under the system's name, and it is not empty, ends in the
-- request's suffix and begins with its prefix. The list is in order.
pub handle_list-lists :
    (system : Text) (unmarshal : Text → Option ListRequest) (message : Message)
    (request : ListRequest) (s : Store)
    → is_empty message.reply ≡ false
    → (if is_empty message.body then some every else unmarshal message.body) ≡ some request
    → (found : List Text) × (handle_list system unmarshal message s ≡ listed found)
      × ((relative : Text)
          → mem_text relative found
            ≡ (selects request relative && is_some (get ((system ++ codes ".") ++ relative) s)))
      × Sorted NotAbove found
unfolding handle_list respond_list
handle_list-lists system unmarshal message request s asked decoded =
    let (members, sorted) = list_matched-lists system request s in
    (list_matched system request s, rw (asked, decoded) refl, members, sorted)
