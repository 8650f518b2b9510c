-- ===== src/PageMap.antt =====
-- The page identity layer of a PDF document (opdf-pdf/src/page_map.rs): page identities and the
-- objects behind them, in document order.
pub mod View
pub mod Refinement
pub mod Rebinding
use open_pdf_editor.Base.{
  ℕ, suc, Bool, true, false, List, [], ◌∷◌, ◌++◌, map, Option, none, some, length, get_elem?,
  insert_idx, erase_idx, modify, ltb, ◌==◌, if◌then◌else◌,
}
use mathlib.Core.Option
use open_pdf_editor.Error.{
  Result, ok, err, Outcome, done, failed, malformed, page_not_found, index_out_of_bounds,
  unsupported, ◌>>=◌,
}
use open_pdf_editor.Page.{PageId, PageIdAllocator, PageSize, Rotation, allocate}

-- `lopdf::ObjectId`
abbrev pub ObjectId : Type 0
ObjectId = ℕ × ℕ

pub record PageSlot : Type 0 where
  pub id : PageId
  pub object_id : ObjectId
  pub size : PageSize
  pub rotation : Rotation
  pub rotation_changed : Bool

pub record PageMap : Type 0 where
  pub slots : List PageSlot
  pub removed : List PageSlot
  pub allocator : PageIdAllocator

abbrev pub new : PageMap
new = record { slots = []; removed = []; allocator = record { next = 0 } }

unfoldable pub slot_position : PageId → List PageSlot → Option ℕ
slot_position id [] = none
slot_position id (s ∷ ss) = if s.id == id then some 0 else Option.map suc (slot_position id ss)

unfoldable pub collect_ids : PageMap → List PageId
collect_ids m = map (λ s. s.id) m.slots

unfoldable pub collect_object_ids : PageMap → List ObjectId
collect_object_ids m = map (λ s. s.object_id) m.slots

unfoldable pub find_slot_index : PageMap → PageId → Result ℕ
find_slot_index m id = elim (slot_position id m.slots) [
  | none ↦ err (page_not_found id)
  | some i ↦ ok i
]

unfoldable pub find_slot : PageMap → PageId → Result PageSlot
unfolding find_slot_index
find_slot m id = do
  i ← find_slot_index m id
  elim (get_elem? m.slots i) [ none ↦ err (page_not_found id) | some s ↦ ok s ]

abbrev pub fresh_slot : PageMap → ObjectId → PageSize → Rotation → PageSlot
fresh_slot m object size rotation = record {
  id = (allocate m.allocator).0;
  object_id = object;
  size = size;
  rotation = rotation;
  rotation_changed = false;
}

unfoldable pub append_slot : ObjectId → PageSize → Rotation → PageMap → PageMap × PageId
append_slot object size rotation m = (
  record m {
    slots = m.slots ++ fresh_slot m object size rotation ∷ [];
    allocator = (allocate m.allocator).1;
  },
  (allocate m.allocator).0,
)

unfoldable pub insert_slot : ℕ → ObjectId → PageSize → Rotation → PageMap → Outcome PageMap PageId
insert_slot at_index object size rotation m =
    if ltb (length m.slots) at_index
    then failed (index_out_of_bounds at_index (length m.slots)) m
    else done (allocate m.allocator).0 (record m {
      slots = insert_idx m.slots at_index (fresh_slot m object size rotation);
      allocator = (allocate m.allocator).1;
    })

unfoldable pub remove_slot : PageId → PageMap → Outcome PageMap (Unit {0})
remove_slot id m = elim (slot_position id m.slots) [
  | none ↦ failed (page_not_found id) m
  | some i ↦ elim (get_elem? m.slots i) [
    | none ↦ failed (page_not_found id) m
    | some s ↦ done tt (record m { slots = erase_idx m.slots i; removed = m.removed ++ s ∷ [] })
  ]
]

-- the tail of `restore_slot`, once the slot is found at `trash_index`
restore_slot_at : PageId → ℕ → ℕ → PageMap → Outcome PageMap (Unit {0})
restore_slot_at id at_index trash_index m =
    if ltb (length m.slots) at_index
    then failed (index_out_of_bounds at_index (length m.slots)) m
    else elim (get_elem? m.removed trash_index) [
      | none ↦ failed (page_not_found id) m
      | some s ↦ done tt (record m {
        removed = erase_idx m.removed trash_index;
        slots = insert_idx m.slots at_index s;
      })
    ]

unfoldable pub restore_slot : PageId → ℕ → PageMap → Outcome PageMap (Unit {0})
unfolding restore_slot_at
restore_slot id at_index m = elim (slot_position id m.slots) [
  | some _ ↦ failed unsupported m
  | none ↦ elim (slot_position id m.removed) [
    | none ↦ failed (page_not_found id) m
    | some trash_index ↦ restore_slot_at id at_index trash_index m
  ]
]

-- the tail of `relocate_slot`, with the slot lifted out of `rest`
put_slot_back : ℕ → ℕ → PageSlot → List PageSlot → PageMap → Outcome PageMap (Unit {0})
put_slot_back from_index to_index s rest m =
    if ltb (length rest) to_index
    then failed (index_out_of_bounds to_index (length m.slots))
        (record m { slots = insert_idx rest from_index s })
    else done tt (record m { slots = insert_idx rest to_index s })

unfoldable pub relocate_slot : PageId → ℕ → PageMap → Outcome PageMap (Unit {0})
unfolding put_slot_back
relocate_slot id to_index m = elim (slot_position id m.slots) [
  | none ↦ failed (page_not_found id) m
  | some from_index ↦ elim (get_elem? m.slots from_index) [
    | none ↦ failed (page_not_found id) m
    | some s ↦ put_slot_back from_index to_index s (erase_idx m.slots from_index) m
  ]
]

-- one round of the loop of `rebind_objects`
abbrev pub rebind : ObjectId → PageSlot → PageSlot
rebind object s = record s { object_id = object; rotation_changed = false }

-- that loop, over `zip`
unfoldable pub rebind_each : List ObjectId → List PageSlot → List PageSlot
rebind_each [] ss = ss
rebind_each (o ∷ os) [] = []
rebind_each (o ∷ os) (s ∷ ss) = rebind o s ∷ rebind_each os ss

unfoldable pub rebind_objects : List ObjectId → PageMap → Outcome PageMap (Unit {0})
rebind_objects object_ids m =
    if length object_ids == length m.slots
    then done tt (record m { slots = rebind_each object_ids m.slots })
    else failed malformed m

abbrev pub purge_trash : PageMap → PageMap
purge_trash m = record m { removed = [] }
