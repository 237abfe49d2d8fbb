-- ===== src/Acl/RoundTrip.antt =====
-- tlpi-dist/acl/acl_update.c: `parseACL` reads back lists of entries that are written out.
use tlpi_exercises.Base.{
  ℕ, suc, ◌+◌, ◌≤◌, ◌<◌, ◌≡◌, refl, ◌∙◌, ap, Bool, true, false, none, some, List, [], ◌∷◌, ◌++◌,
  map, length, same_text, has, All, arith, ltb_of_lt,
}
use tlpi_exercises.Acl.Cut.{has-append, cut-append, cut-none}
use tlpi_exercises.Acl.Print.{Item, tag_text, perms_text, print, print_acl, entry, Named, Nameless}
use tlpi_exercises.Acl.{
  Text, colon, comma, Tag, user_obj, user, group_obj, group, other, mask, Perms, Entry, cut,
  starts_qual, is_given, tag_of, parse_perms, perms_of, qual_of, entry_of, parse_rest,
  parse_entry_spec, max_entries, parse_loop, parse_acl,
}

bits :
    (r w x : Bool)
    → let p : Perms = record { read = r; write = w; execute = x } in
      perms_of (some (perms_text p)) ≡ some (some p)
unfolding perms_of parse_perms
bits true true true = refl
bits true true false = refl
bits true false true = refl
bits true false false = refl
bits false true true = refl
bits false true false = refl
bits false false true = refl
bits false false false = refl

perms_of-print : (p : Perms) → perms_of (some (perms_text p)) ≡ some (some p)
perms_of-print p = bits p.read p.write p.execute

module _ (user_id group_id : Text → ℕ) where
  abbrev KindFits : Tag → Text → ℕ → Type 0
  KindFits user_obj = Nameless
  KindFits user = Named user_id
  KindFits group_obj = Nameless
  KindFits group = Named group_id
  KindFits other = Nameless
  KindFits mask = Nameless

  abbrev pub Fits : Item → Type 0
  Fits i = KindFits i.kind i.name i.id

  tag_text-has : (k : Tag) → has colon (tag_text k) ≡ false
  tag_text-has user_obj = refl
  tag_text-has user = refl
  tag_text-has group_obj = refl
  tag_text-has group = refl
  tag_text-has other = refl
  tag_text-has mask = refl

  starts_qual-name : (c : ℕ) (s t : Text) → has colon (c ∷ s) ≡ false → starts_qual (c ∷ t) ≡ true
  unfolding starts_qual
  starts_qual-name c s t h = ground arith

  -- `parse_rest` from what it finds
  parse_rest-parts :
      (t rest name : Text) (b : Bool) (k : Tag) (id : ℕ) (p : Perms)
      → cut colon rest ≡ (name, some (perms_text p))
      → starts_qual rest ≡ b
      → tag_of t b ≡ some k
      → qual_of user_id group_id k name ≡ some id
      → parse_rest user_id group_id true t rest
        ≡ some (record { tag = k; qual = id; perms = some p })
  unfolding parse_rest is_given entry_of
  parse_rest-parts t rest name b k id p c s e q = rw (c, s, e, entry_of, q, perms_of-print p) refl

  qual_of-user :
      (name : Text) (id : ℕ) → Named user_id name id → qual_of user_id group_id user name ≡ some id
  unfolding qual_of
  qual_of-user name id (_, _, _, i, ok) = ground arith

  qual_of-group :
      (name : Text) (id : ℕ)
      → Named group_id name id
      → qual_of user_id group_id group name ≡ some id
  unfolding qual_of
  qual_of-group name id (_, _, _, i, ok) = ground arith

  parse_rest-Nameless :
      (t : Text) (k : Tag) (name : Text) (id : ℕ) (p : Perms)
      → Nameless name id
      → tag_of t false ≡ some k
      → qual_of user_id group_id k [] ≡ some 0
      → parse_rest user_id group_id true t (name ++ colon ∷ perms_text p)
        ≡ some (record { tag = k; qual = id; perms = some p })
  unfolding starts_qual
  parse_rest-Nameless t k name id p (e, z) f q =
      rw (e, z) (parse_rest-parts t _ [] false k 0 p (cut-append colon [] _ refl) refl f q)

  parse_rest-Named :
      (t : Text) (k : Tag) (c : ℕ) (s : Text) (id : ℕ) (p : Perms)
      → has colon (c ∷ s) ≡ false
      → tag_of t true ≡ some k
      → qual_of user_id group_id k (c ∷ s) ≡ some id
      → parse_rest user_id group_id true t (c ∷ s ++ colon ∷ perms_text p)
        ≡ some (record { tag = k; qual = id; perms = some p })
  parse_rest-Named t k c s id p h f q =
      parse_rest-parts t _ (c ∷ s) true k id p (cut-append colon (c ∷ s) _ h)
        (starts_qual-name c s _ h) f q

  parse_rest-print :
      (k : Tag) (name : Text) (id : ℕ) (p : Perms)
      → KindFits k name id
      → parse_rest user_id group_id true (tag_text k) (name ++ colon ∷ perms_text p)
        ≡ some (record { tag = k; qual = id; perms = some p })
  unfolding tag_of qual_of same_text
  parse_rest-print user_obj name id p h = parse_rest-Nameless _ user_obj name id p h refl refl
  parse_rest-print user [] id p h = absurd (h.0 refl)
  parse_rest-print user (c ∷ s) id p h =
      parse_rest-Named _ user c s id p h.1 refl (qual_of-user (c ∷ s) id h)
  parse_rest-print group_obj name id p h = parse_rest-Nameless _ group_obj name id p h refl refl
  parse_rest-print group [] id p h = absurd (h.0 refl)
  parse_rest-print group (c ∷ s) id p h =
      parse_rest-Named _ group c s id p h.1 refl (qual_of-group (c ∷ s) id h)
  parse_rest-print other name id p h = parse_rest-Nameless _ other name id p h refl refl
  parse_rest-print mask name id p h = parse_rest-Nameless _ mask name id p h refl refl

  parse_entry_spec-parts :
      (text t rest : Text)
      → cut colon text ≡ (t, some rest)
      → parse_entry_spec user_id group_id true text ≡ parse_rest user_id group_id true t rest
  unfolding parse_entry_spec
  parse_entry_spec-parts text t rest c = rw (parse_entry_spec, c, ap (λ r. r.0) c) refl

  parse_entry_spec-print :
      (i : Item) → Fits i → parse_entry_spec user_id group_id true (print i) ≡ some (entry i)
  parse_entry_spec-print i h =
      parse_entry_spec-parts _ _ _ (cut-append colon (tag_text i.kind) _ (tag_text-has i.kind))
      ∙ parse_rest-print i.kind i.name i.id i.allowed h

  name-has : (k : Tag) (name : Text) (id : ℕ) → KindFits k name id → has comma name ≡ false
  name-has user_obj name id (e, _) = rw e refl
  name-has user name id h = h.2
  name-has group_obj name id (e, _) = rw e refl
  name-has group name id h = h.2
  name-has other name id (e, _) = rw e refl
  name-has mask name id (e, _) = rw e refl

  perms_text-has : (p : Perms) → has comma (perms_text p) ≡ false
  perms_text-has p = ground arith

  tag_text-comma : (k : Tag) → has comma (tag_text k) ≡ false
  tag_text-comma user_obj = refl
  tag_text-comma user = refl
  tag_text-comma group_obj = refl
  tag_text-comma group = refl
  tag_text-comma other = refl
  tag_text-comma mask = refl

  print-has : (i : Item) → Fits i → has comma (print i) ≡ false
  print-has i h =
      has-append comma (tag_text i.kind) _ (tag_text-comma i.kind)
        (has-append comma i.name _ (name-has i.kind i.name i.id h) (perms_text-has i.allowed))

  loop-last :
      (text x : Text) (e : Entry) (n fuel : ℕ)
      → cut comma text ≡ (x, none)
      → parse_entry_spec user_id group_id true x ≡ some e
      → n < max_entries
      → parse_loop user_id group_id (suc fuel) true text n ≡ some (some (e ∷ []))
  unfolding parse_loop
  loop-last text x e n fuel c p b = simp (c, p, ltb_of_lt n max_entries b) refl

  loop-more :
      (text x s : Text) (e : Entry) (es : List Entry) (n fuel : ℕ)
      → cut comma text ≡ (x, some s)
      → parse_entry_spec user_id group_id true x ≡ some e
      → n < max_entries
      → parse_loop user_id group_id fuel true s (n + 1) ≡ some (some es)
      → parse_loop user_id group_id (suc fuel) true text n ≡ some (some (e ∷ es))
  unfolding parse_loop
  loop-more text x s e es n fuel c p b l = simp (c, p, ltb_of_lt n max_entries b, l) refl

  loop-print :
      (i : Item) (js : List Item) (n : ℕ)
      → All Fits (i ∷ js)
      → n + length (i ∷ js) ≤ max_entries
      → parse_loop user_id group_id (length (i ∷ js)) true (print_acl i js) n
        ≡ some (some (map entry (i ∷ js)))
  loop-print i [] n (h, _) b =
      loop-last _ (print i) (entry i) n 0 (cut-none comma (print i) (print-has i h))
        (parse_entry_spec-print i h) (omega arith)
  loop-print i (j ∷ js) n (h, hs) b =
      loop-more _ (print i) (print_acl j js) (entry i) _ n _
        (cut-append comma (print i) _ (print-has i h)) (parse_entry_spec-print i h) (omega arith)
        (loop-print j js (n + 1) hs (omega arith))

  -- A list of at most `max_entries` entries that is written out, with the names of its users and groups,
  -- is read back as that list. Such a name is not empty, has no colon and no comma, and has an ID that
  -- is not -1.
  pub parse_acl-print :
      (i : Item) (js : List Item)
      → All Fits (i ∷ js)
      → length (i ∷ js) ≤ max_entries
      → parse_acl user_id group_id (length (i ∷ js)) true (print_acl i js)
        ≡ some (some (map entry (i ∷ js)))
  unfolding parse_acl
  parse_acl-print i js h b = loop-print i js 0 h (omega arith)
