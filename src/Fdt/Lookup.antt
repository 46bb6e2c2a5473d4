-- ===== src/Fdt/Lookup.antt =====
-- `fdt_get_property` finds the first property of the node itself that has the name.
use mathlib.Core.Path.{subst}
use risky.Base.{
  ℕ, suc, ◌+◌, ◌-◌, ◌≤◌, ◌≡◌, refl, ap, ◌∙◌, inl, inr, Bool, true, false, some, [], ◌∷◌, ltb, ◌==◌,
  if◌then◌else◌, arith, Bool-cases, Outcome, done, refused, ◌>>=◌, on_true, on_false, returned,
}
use risky.Fdt.Blob.{Blob, Fdt, Property, Text, fdt_align4, fdt_bounded_strlen, text_is, prop_header}
use risky.Fdt.Walk.{Node, fdt_begin_node, fdt_end_node, fdt_prop, fdt_nop, struct_rounds}
use risky.Fdt.Property.{
  found, next, fdt_node_payload, skip_child, property_here, property_case, property_token,
  property_loop, fdt_get_property,
}
use risky.Fdt.Find.{same_text}
use risky.Fdt.Tree.{
  Items, lookup, from_option, Spells, Token, Encodes, ends, skips, has, holds, rounds_on,
  rounds_split,
}
use risky.Fdt.Payload.{payload-Returns}
use risky.Fdt.Reads.{IsParsed, IsText, text_head, bounded_strlen-Returns, header-Returns}

text_is-Spells :
    (b : Blob) (s : ℕ) (own name : Text)
    → Spells b s own
    → IsText name
    → text_is b s name ≡ done (same_text own name)
unfolding text_is same_text
text_is-Spells b s [] [] spells is = rw (spells.1) refl
text_is-Spells b s [] (d ∷ ds) spells is =
    let off : (0 == d) ≡ false = ground (arith, text_head d ds is) in
    rw (spells.1) (on_false (0 == d) _ _ off refl)
text_is-Spells b s (c ∷ cs) [] spells is =
    let off : (c == 0) ≡ false = ground (arith, text_head c cs (spells.0)) in
    rw (spells.1.0, off) refl
text_is-Spells b s (c ∷ cs) (d ∷ ds) spells is =
    let later =
      text_is-Spells b (s + 1) cs ds ((text_head c cs (spells.0)).1, spells.1.1)
        ((text_head d ds is).1) in
    elim (Bool-cases (c == d)) [
      | inl on ↦ rw (spells.1.0) (on_true (c == d) _ _ on (rw on later))
      | inr off ↦ rw (spells.1.0) (on_false (c == d) _ _ off (rw off refl))
    ]

last :
    {f : Fdt} {cursor to : ℕ} {items : Items} → Encodes f cursor items to → Token f to fdt_end_node
last (ends token) = token
last (skips token later) = last later
last (has name len nameoff token header spells later) = last later
last (holds len token name inside later) = last later

module _ (f : Fdt) (is : IsParsed f) (name : Text) (name_is : IsText name) where
  -- One round on a token.
  round_lem :
      (rounds cursor token depth : ℕ)
      → Token f cursor token
      → property_loop (suc rounds) f name cursor depth ≡ (
          property_case f name token (cursor + 4) depth >>= λ round.
          elim round as (λ _. Outcome Property) [
            | found prop ↦ done prop
            | next cursor' depth' ↦ property_loop rounds f name cursor' depth'
          ])
  unfolding property_loop property_token
  round_lem rounds cursor token depth at =
      let left : ltb cursor f.struct_block_end ≡ true = ground (arith, at.left) in
      rw (property_loop, left, at.read) refl

  goes_on :
      (rounds cursor token depth : ℕ) {cursor' depth' : ℕ}
      → Token f cursor token
      → property_case f name token (cursor + 4) depth ≡ done (next cursor' depth')
      → property_loop (suc rounds) f name cursor depth ≡ property_loop rounds f name cursor' depth'
  goes_on rounds cursor token depth at e = round_lem rounds cursor token depth at ∙ rw e refl

  begin_case :
      (cursor depth len : ℕ)
      → fdt_bounded_strlen f.blob cursor f.struct_block_end ≡ done len
      → property_case f name fdt_begin_node cursor depth
        ≡ done (next (fdt_align4 (cursor + len + 1)) (depth + 1))
  unfolding property_case skip_child
  begin_case cursor depth len own = rw own refl

  end_case :
      (cursor depth : ℕ)
      → property_case f name fdt_end_node cursor (depth + 1) ≡ done (next cursor depth)
  unfolding property_case
  end_case cursor depth =
      let deep : (depth + 1 == 0) ≡ false = ground arith in
      let up : depth + 1 - 1 ≡ depth = omega arith in rw (deep, up) refl

  deep_case :
      (cursor depth len nameoff : ℕ)
      → prop_header f cursor ≡ done (len, nameoff)
      → property_case f name fdt_prop cursor (depth + 1)
        ≡ done (next (fdt_align4 (cursor + 8 + len)) (depth + 1))
  unfolding property_case property_here
  deep_case cursor depth len nameoff header =
      let deep : (depth + 1 == 0) ≡ false = ground arith in
      ap
        (λ (h : Outcome (ℕ × ℕ)). h >>= λ r.
          (if depth + 1 == 0 then text_is f.blob (f.strings_block + r.1) name else done false)
          >>= λ same. done (
              if same
              then found (record { value = cursor + 8; len = r.0 })
              else next (fdt_align4 (cursor + 8 + r.0)) (depth + 1)))
        header
      ∙ rw deep refl

  top_case :
      (cursor len nameoff : ℕ) (own : Text)
      → prop_header f cursor ≡ done (len, nameoff)
      → Spells f.blob (f.strings_block + nameoff) own
      → property_case f name fdt_prop cursor 0
        ≡ done (
            if same_text own name
            then found (record { value = cursor + 8; len = len })
            else next (fdt_align4 (cursor + 8 + len)) 0)
  unfolding property_case property_here
  top_case cursor len nameoff own header spells =
      ap
        (λ (h : Outcome (ℕ × ℕ)). h >>= λ r. text_is f.blob (f.strings_block + r.1) name >>= λ same.
          done (
            if same
            then found (record { value = cursor + 8; len = r.0 })
            else next (fdt_align4 (cursor + 8 + r.0)) 0))
        header
      ∙ rw (text_is-Spells f.blob (f.strings_block + nameoff) own name spells name_is) refl

  end_of_node : (cursor : ℕ) → property_case f name fdt_end_node cursor 0 ≡ refused
  unfolding property_case
  end_of_node cursor = refl

  nop_case :
      (cursor depth : ℕ) → property_case f name fdt_nop cursor depth ≡ done (next cursor depth)
  unfolding property_case
  nop_case cursor depth = refl

  -- Inside a child, nothing is found, and the loop comes to the token that ends the child.
  child_lem :
      {cursor to : ℕ} {items : Items} (e : Encodes f cursor items to) (rounds depth : ℕ)
      → property_loop (rounds_on e rounds) f name cursor (depth + 1)
        ≡ property_loop rounds f name to (depth + 1)
  child_lem (ends token) rounds depth = refl
  child_lem {cursor} (skips token later) rounds depth =
      goes_on (rounds_on later rounds) cursor fdt_nop (depth + 1) token
        (nop_case (cursor + 4) (depth + 1))
      ∙ child_lem later rounds depth
  child_lem {cursor} (has own len nameoff token header spells later) rounds depth =
      goes_on (rounds_on later rounds) cursor fdt_prop (depth + 1) token
        (deep_case (cursor + 4) depth len nameoff header)
      ∙ child_lem later rounds depth
  child_lem {cursor} (holds {inner_end = inner_end} len token own inside later) rounds depth =
      goes_on (rounds_on inside (suc (rounds_on later rounds))) cursor fdt_begin_node (depth + 1)
        token (begin_case (cursor + 4) (depth + 1) len own)
      ∙ child_lem inside (suc (rounds_on later rounds)) (depth + 1)
      ∙ goes_on (rounds_on later rounds) inner_end fdt_end_node (depth + 1 + 1) (last inside)
          (end_case (inner_end + 4) (depth + 1))
      ∙ child_lem later rounds depth

  -- At the node itself, what is found is the first property with the name.
  own_lem :
      {cursor to : ℕ} {items : Items} (e : Encodes f cursor items to) (rounds : ℕ)
      → property_loop (rounds_on e (suc rounds)) f name cursor 0 ≡ from_option (lookup name items)
  own_lem {cursor} (ends token) rounds =
      round_lem rounds cursor fdt_end_node 0 token ∙ rw (end_of_node (cursor + 4)) refl
  own_lem {cursor} (skips token later) rounds =
      goes_on (rounds_on later (suc rounds)) cursor fdt_nop 0 token (nop_case (cursor + 4) 0)
      ∙ own_lem later rounds
  own_lem {cursor} (has {rest = rest} own len nameoff token header spells later) rounds =
      round_lem (rounds_on later (suc rounds)) cursor fdt_prop 0 token
      ∙ rw (top_case (cursor + 4) len nameoff own header spells) (
          pick (same_text own name) rest (record { value = cursor + 4 + 8; len = len })
            (property_loop (rounds_on later (suc rounds)) f name) (own_lem later rounds))
    where
      pick :
          (same : Bool) (rest : Items) (prop : Property) (o : ℕ → ℕ → Outcome Property)
          {cursor' : ℕ}
          → o cursor' 0 ≡ from_option (lookup name rest)
          → elim (if same then found prop else next cursor' 0) as (λ _. Outcome Property) [
            | found prop' ↦ done prop'
            | next c d ↦ o c d
          ]
            ≡ from_option (if same then some prop else lookup name rest)
      pick true rest prop o h = refl
      pick false rest prop o h = h
  own_lem {cursor} (holds {inner_end = inner_end} len token own inside later) rounds =
      goes_on (rounds_on inside (suc (rounds_on later (suc rounds)))) cursor fdt_begin_node 0 token
        (begin_case (cursor + 4) 0 len own)
      ∙ child_lem inside (suc (rounds_on later (suc rounds))) 0
      ∙ goes_on (rounds_on later (suc rounds)) inner_end fdt_end_node 1 (last inside)
          (end_case (inner_end + 4) 0)
      ∙ own_lem later rounds

  -- The tokens take four bytes each, and the cursor does not come back.
  count_lem :
      {cursor to : ℕ} {items : Items} (e : Encodes f cursor items to)
      → f.struct_block ≤ cursor
      → cursor + rounds_on e 0 ≤ to
  count_lem (ends token) lo = omega arith
  count_lem (skips token later) lo = omega (arith, count_lem later (omega arith))
  count_lem {cursor} (has own len nameoff token header spells later) lo =
      let fits =
        returned _ (prop_header f (cursor + 4))
          (header-Returns f is (cursor + 4) (omega (arith, is.starts)) token.left) header in
      let after = count_lem later (omega (arith, fits.0, is.ends, is.room)) in
      omega (arith, fits.0, is.ends, is.room)
  count_lem {cursor} (holds {inner_end = inner_end} len token own inside later) lo =
      let fits =
        returned _ (fdt_bounded_strlen f.blob (cursor + 4) f.struct_block_end)
          (bounded_strlen-Returns f.blob (cursor + 4) f.struct_block_end (omega (arith, is.starts))
            token.left is.ends (omega (arith, is.room)))
          own in
      let before = count_lem inside (omega (arith, fits, is.ends, is.room)) in
      let after = count_lem later (omega (arith, fits, is.ends, is.room)) in
      let rounds = rounds_split inside (suc (rounds_on later 0)) in
      omega (arith, fits, is.ends, is.room)

  enough_lem :
      {cursor to : ℕ} {items : Items} (e : Encodes f cursor items to)
      → f.struct_block ≤ cursor
      → property_loop (struct_rounds f) f name cursor 0 ≡ from_option (lookup name items)
  enough_lem {cursor} {to} {items} e lo =
      let spare = f.struct_block_end - f.struct_block - rounds_on e 0 in
      let all : rounds_on e (suc spare) ≡ struct_rounds f =
        rounds_split e (suc spare) ∙ omega (arith, count_lem e lo, (last e).left, is.ordered) in
      subst (λ (r : ℕ). property_loop r f name cursor 0 ≡ from_option (lookup name items)) all
        (own_lem e spare)

-- When the payload of a node encodes the items, to the token that ends the node, a search for a
-- property finds the first of the node's own properties that has the name, and is refused if
-- there is none: the properties of its children are passed over.
pub fdt_get_property-lookup :
    (f : Fdt) (node : Node) (name : Text) (payload to : ℕ) (items : Items)
    → IsParsed f
    → IsText name
    → fdt_node_payload f node ≡ done payload
    → Encodes f payload items to
    → fdt_get_property f node name ≡ from_option (lookup name items)
unfolding fdt_get_property
fdt_get_property-lookup f node name payload to items is name_is at e = rw at (
    enough_lem f is name name_is e
      ((returned _ (fdt_node_payload f node) (payload-Returns f is node) at).0))
