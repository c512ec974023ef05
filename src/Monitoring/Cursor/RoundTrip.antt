-- ===== src/Monitoring/Cursor/RoundTrip.antt =====
-- packages/api/src/docker/docker-monitoring.schemas.ts: a cursor that is decoded again.
use vps_manager_nodejs.Prelude.{
  String, Bool, true, ◌&&◌, List, [], ◌∷◌, Option, none, some, ◌≡◌, refl, ap, ◌∙◌, every, arith,
  eq_refl, true-&&, &&-true, ok,
}
use vps_manager_nodejs.Monitoring.Cursor.{
  Codec, CursorPayload, Filters, defined, optional, same_optional, same_entries, scope_name,
  order_name, sorted_entries, same_filters, is_valid_payload, decode_cursor, assert_binding,
}

-- The filters without the ones that are undefined, as JSON writes them.
abbrev pub kept : Filters → Filters
kept [] = []
kept ((key, none) ∷ rest) = kept rest
kept ((key, some value) ∷ rest) = (key, some value) ∷ kept rest

abbrev pub written : CursorPayload → CursorPayload
written p = record p { binding = record p.binding { filters = kept p.binding.filters } }

-- Reading its text gives the payload that was written, without its undefined filters.
abbrev pub ReadsBack : Codec → CursorPayload → Type 0
ReadsBack codec p = codec.read (codec.write p) ≡ some (written p)

defined-kept : (filters : Filters) → defined (kept filters) ≡ defined filters
defined-kept [] = refl
defined-kept ((key, none) ∷ rest) = defined-kept rest
defined-kept ((key, some value) ∷ rest) = ap (λ r. (key, value) ∷ r) (defined-kept rest)

every-kept :
    (p : String × Option String → Bool) (filters : Filters)
    → every p filters ≡ true
    → every p (kept filters) ≡ true
every-kept p [] all = refl
every-kept p ((key, none) ∷ rest) all =
    every-kept p rest ((&&-true (p (key, none)) (every p rest) all).1)
every-kept p ((key, some value) ∷ rest) all =
    let (here, later) = &&-true (p (key, some value)) (every p rest) all in
    true-&& (p (key, some value)) (every p (kept rest)) here (every-kept p rest later)

same_entries_refl : (entries : List (String × String)) → same_entries entries entries ≡ true
same_entries_refl [] = refl
same_entries_refl ((a, x) ∷ rest) = rw (eq_refl a, eq_refl x) (same_entries_refl rest)

same_optional_refl : (o : Option String) → same_optional o o ≡ true
same_optional_refl none = refl
same_optional_refl (some t) = eq_refl t

module _ (codec : Codec) where
  is_valid_payload-written :
      (p : CursorPayload)
      → is_valid_payload codec p ≡ true
      → is_valid_payload codec (written p) ≡ true
  unfolding is_valid_payload
  is_valid_payload-written p valid =
      let filters =
        every-kept (λ f. codec.is_sized 0 64 f.0 && optional (codec.is_sized 0 512) f.1)
          p.binding.filters in
      ground (arith, filters)

  same_filters-kept : (filters : Filters) → same_filters codec (kept filters) filters ≡ true
  unfolding same_filters
  same_filters-kept filters =
      ap (λ d. same_entries (sorted_entries codec d) (sorted_entries codec (defined filters)))
        (defined-kept filters)
      ∙ same_entries_refl (sorted_entries codec (defined filters))

  pub assert_binding-written :
      (p : CursorPayload) → assert_binding codec (written p).binding p.binding ≡ ok tt
  unfolding assert_binding
  assert_binding-written p =
      rw
        (
          eq_refl p.binding.vps_id,
          eq_refl (scope_name p.binding.scope),
          same_optional_refl p.binding.agent_instance_id,
          same_optional_refl p.binding.container_key,
          eq_refl (order_name p.binding.order),
          same_filters-kept p.binding.filters,
        )
        refl

  pub decode_cursor-write :
      (p : CursorPayload)
      → ReadsBack codec p
      → is_valid_payload codec p ≡ true
      → decode_cursor codec (codec.write p) ≡ ok (written p)
  unfolding decode_cursor
  decode_cursor-write p reads valid =
      rw (reads, decode_cursor, is_valid_payload-written p valid) refl
