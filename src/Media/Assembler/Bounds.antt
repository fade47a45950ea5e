-- ===== src/Media/Assembler/Bounds.antt =====
-- What all events keep of apps/trapchat/src/lib/media.js, class `MediaAssembler`.
use trapchat.Prelude.{
  ℕ, ◌+◌, ◌≡◌, refl, ◌∙◌, sym, Bool, true, false, ◌&&◌, Option, none, some, String, List, [], ◌∷◌,
  ◌++◌, length, get_elem?, set, arith, if◌then◌else◌, ◌<◌, ◌≤◌, inl, inr, Bool-cases, Option-cases,
  leb, leb→lt, ltb, ◌==◌, eq_iff,
}
use trapchat.Prelude.JsMap.{get, has, put, has-put, length-put, length-delete-le}
use trapchat.Prelude.JsMap.Unique.{IsUnique, has-delete, put-IsUnique, delete-IsUnique}
use trapchat.Media.Mime.{validate_mime_type}
use trapchat.Media.Transfer.{
  Bytes, Metadata, Transfer, is_named, empty_transfer, describe, total_size, assemble, store_chunk,
}
use trapchat.Media.Assembler.{
  Assembler, Request, Answer, threw, too_large, progress, complete, max_concurrent_transfers,
  max_file_size, stale_timeout, update_at, find_transfer, admit, clean_up, finish_transfer, finish,
  expire, destroy,
}

-- There are at most ten transfers at a time, and exactly the transfers in the map have a timer that
-- will remove them. No id stands twice in a map.
abbrev pub IsValid : Assembler → Type 0
IsValid a =
    (length a.transfers ≤ max_concurrent_transfers)
    × IsUnique a.transfers
    × IsUnique a.timers
    × ((id : String) → has id a.transfers ≡ has id a.timers)

-- Everything that can happen to an assembler.
pub data Event (C : Type 0) : Type 0 where
  admits : Request C → Option Metadata → ℕ → Event C
  finishes : ℕ → Request C → Option (Bytes × Metadata) → Event C
  expires : String → ℕ → Event C
  is_destroyed : Event C

unfoldable pub step : {C : Type 0} → Assembler → Event C → Assembler
step a (admits r inner now) = (admit a r inner now).0
step a (finishes i r opened) = (finish a i r opened).0
step a (expires id now) = expire a id now
step a is_destroyed = destroy a

has_of_get :
    {V : Type 0} (id : String) (m : List (String × V)) (v : V) → get id m ≡ some v → has id m ≡ true
unfolding get has
has_of_get id [] v h = cc
has_of_get id ((k, w) ∷ m) v h = ground (arith, has_of_get id m v)

has_of_none :
    {V : Type 0} (id : String) (m : List (String × V)) → get id m ≡ none → has id m ≡ false
unfolding get has
has_of_none id [] h = refl
has_of_none id ((k, w) ∷ m) h = ground (arith, has_of_none id m)

clean_up-IsValid : (a : Assembler) (id : String) → IsValid a → IsValid (clean_up a id)
unfolding clean_up
clean_up-IsValid a id (n, u, v, s) = (
  omega (arith, length-delete-le id a.transfers),
  delete-IsUnique id a.transfers u,
  delete-IsUnique id a.timers v,
  λ j. has-delete id j a.transfers u ∙ rw (s j) (sym (has-delete id j a.timers v)),
)

finish_transfer-IsValid :
    (a : Assembler) (t : Transfer) (id : String) → IsValid a → IsValid (finish_transfer a t id).0
unfolding finish_transfer
finish_transfer-IsValid a t id h =
    go (t.received == t.total) (ltb max_file_size (total_size t.chunks)) (assemble t.chunks)
  where
    go :
        (b c : Bool) (o : Option Bytes)
        → let x : Assembler × Answer =
            if b
            then if c then (clean_up a id, too_large id) else elim o [
              | none ↦ (a, threw)
              | some bytes ↦ (
                clean_up a id,
                complete id (validate_mime_type t.mime_type bytes) t.file_name t.file_size bytes,
              )
            ]
            else (a, progress id t.received t.total) in
          IsValid x.0
    go true true o = clean_up-IsValid a id h
    go true false none = h
    go true false (some bytes) = clean_up-IsValid a id h
    go false c o = h

finish-IsValid :
    {C : Type 0} (a : Assembler) (i : ℕ) (r : Request C) (opened : Option (Bytes × Metadata))
    → IsValid a
    → IsValid (finish a i r opened).0
unfolding finish
finish-IsValid a i r none h = h
finish-IsValid a i r (some (b, meta)) h = elim (Option-cases (get_elem? a.heap i)) [
  | inl e ↦ rw (e, finish) h
  | inr (t, e) ↦
      let t' = store_chunk t r.seq b meta in
      rw (e, finish)
        (finish_transfer-IsValid (record a { heap = set a.heap i t' }) t' r.transfer_id h)
]

expire-IsValid : (a : Assembler) (id : String) (now : ℕ) → IsValid a → IsValid (expire a id now)
unfolding expire
expire-IsValid a id now h = elim (Option-cases (get id a.timers)) [
  | inl e ↦ rw (e, expire) h
  | inr (t, e) ↦ elim (Bool-cases (leb t now)) [
    | inl l ↦ rw (e, expire, l) (clean_up-IsValid a id h)
    | inr l ↦ rw (e, expire, l) h
  ]
]

-- A transfer in the map gets a timer.
set_timer-IsValid :
    (a : Assembler) (id : String) (at : ℕ)
    → has id a.transfers ≡ true
    → IsValid a
    → IsValid (record a { timers = put id at a.timers })
set_timer-IsValid a id at p (n, u, v, s) = (
  n,
  u,
  put-IsUnique id at a.timers v,
  λ j. ground (arith, p, s j, has-put id j at a.timers, eq_iff id j),
)

-- A transfer is put in with its timer.
add-IsValid :
    (a : Assembler) (heap : List Transfer) (id : String) (i at : ℕ)
    → length a.transfers < max_concurrent_transfers
    → has id a.transfers ≡ false
    → IsValid a
    → IsValid
        (record { heap = heap; transfers = put id i a.transfers; timers = put id at a.timers })
add-IsValid a heap id i at room p (n, u, v, s) = (
  ground (arith, length-put id i a.transfers, p),
  put-IsUnique id i a.transfers u,
  put-IsUnique id at a.timers v,
  λ j. ground (arith, s j, has-put id j i a.transfers, has-put id j at a.timers),
)

admit-IsValid :
    {C : Type 0} (a : Assembler) (r : Request C) (inner : Option Metadata) (now : ℕ)
    → IsValid a
    → IsValid (admit a r inner now).0
unfolding admit find_transfer
admit-IsValid a r none now h = h
admit-IsValid a r (some meta) now h = elim (Option-cases (get r.transfer_id a.transfers)) [
  | inr (i, e) ↦
      rw (e, admit, find_transfer)
        (go i (has_of_get r.transfer_id a.transfers i e) (r.seq == 0 && is_named meta.mime_type))
  | inl e ↦ elim (Bool-cases (leb max_concurrent_transfers (length a.transfers))) [
    | inl l ↦ rw (e, admit, find_transfer, l) h
    | inr l ↦
        rw (e, admit, find_transfer, l)
          (add-IsValid a (a.heap ++ empty_transfer r.total ∷ []) r.transfer_id (length a.heap)
            (now + stale_timeout) (leb→lt _ _ l) (has_of_none r.transfer_id a.transfers e) h)
  ]
]
  where
    go :
        (i : ℕ)
        → has r.transfer_id a.transfers ≡ true
        → (b : Bool)
        → let a' = if b then record a { heap = update_at a.heap i (λ t. describe t meta) } else a in
          IsValid (record a' { timers = put r.transfer_id (now + stale_timeout) a'.timers })
    go i p true =
        set_timer-IsValid (record a { heap = update_at a.heap i (λ t. describe t meta) })
          r.transfer_id (now + stale_timeout) p h
    go i p false = set_timer-IsValid a r.transfer_id (now + stale_timeout) p h

-- Whatever happens to an assembler, it stays so that there are at most ten transfers at a time, and
-- that exactly those in its map have a timer that will remove them.
pub assembler_step-IsValid :
    {C : Type 0} (a : Assembler) (e : Event C) → IsValid a → IsValid (step a e)
unfolding step destroy
assembler_step-IsValid a (admits r inner now) h = admit-IsValid a r inner now h
assembler_step-IsValid a (finishes i r opened) h = finish-IsValid a i r opened h
assembler_step-IsValid a (expires id now) h = expire-IsValid a id now h
assembler_step-IsValid a is_destroyed h = (omega arith, tt, tt, λ j. refl)
