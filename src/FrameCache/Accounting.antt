-- ===== src/FrameCache/Accounting.antt =====
-- What the viewer's tile cache counts, and which requests it still wants.
use open_pdf_editor.Base.{
  ℕ, ◌+◌, ◌^◌, ◌<◌, ◌≡◌, inl, inr, refl, true, false, List, [], ◌∷◌, none, arith, Option-cases,
}
use open_pdf_editor.Render.{RenderRequest, request_eq_iff}
use open_pdf_editor.Render.RequestMap.{
  lookup, remove, count_key, total, member, count_key-remove, total-remove, request_eq_self,
  count_key_of_lookup_none,
}
use open_pdf_editor.FrameCache.{
  CacheEntry, TileCache, entry_bytes, insert, wants, mark_pending, note_failed, clear, add,
}
use open_pdf_editor.FrameCache.Eviction.{Valid}

member-add : (r : RenderRequest) (rs : List RenderRequest) → member r (add r rs) ≡ true
unfolding member
member-add r rs = ground (arith, request_eq_self r)

module _ {T : Type 0} where
  absent :
      (r : RenderRequest) (m : List (RenderRequest × CacheEntry T))
      → lookup r m ≡ none
      → remove r m ≡ m
  unfolding lookup remove
  absent r [] h = refl
  absent r ((k, e) ∷ m) h = ground (arith, absent r m, h)

  -- Inserting keeps the cache valid, whether the request was cached or not, as long as the bytes do
  -- not pass the end of `usize`.
  pub insert-Valid :
      (r : RenderRequest) (value : T) (bytes : ℕ) (c : TileCache T)
      → Valid c
      → c.used_bytes + bytes < 2 ^ 64
      → Valid (insert r value bytes c)
  unfolding insert count_key total
  insert-Valid r value bytes c v h = elim (Option-cases (lookup r c.entries)) [
    | inl e ↦ record {
      once = λ q. ground (
        arith,
        v.once q,
        absent r c.entries e,
        count_key_of_lookup_none r c.entries e,
        request_eq_iff r q,
      );
      counted = ground (arith, v.counted, e, absent r c.entries e);
    }
    | inr (x, e) ↦ record {
      once = λ q. ground (arith, v.once q, count_key-remove q r c.entries e);
      counted = ground (arith, v.counted, e, total-remove entry_bytes r c.entries e);
    }
  ]

  -- A request that was marked as pending, that was answered by a tile or that was refused is not
  -- asked for again; marking says so by its result. Emptying the cache makes every request wanted.
  pub wants_lem :
      (r : RenderRequest) (value : T) (bytes : ℕ) (c : TileCache T)
      → ((mark_pending r c).0 ≡ wants r c)
        × (wants r (mark_pending r c).1 ≡ false)
        × (wants r (insert r value bytes c) ≡ false)
        × (wants r (note_failed r c) ≡ false)
        × (wants r (clear c) ≡ true)
  unfolding wants mark_pending insert note_failed clear lookup member
  wants_lem r value bytes c = (
    ground arith,
    ground (arith, member-add r c.pending),
    ground (arith, request_eq_self r),
    ground (arith, member-add r c.failed),
    refl,
  )
