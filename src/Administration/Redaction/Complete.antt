-- ===== src/Administration/Redaction/Complete.antt =====
-- What a metadata view leaves out, and that it leaves out nothing else.
use netbox_openbao.Prelude.{
  ℕ, suc, String, Bool, true, false, ◌≡◌, refl, arith, not, ◌&&◌, leb, length, ap, if◌then◌else◌,
  ◌∙◌, and-true,
}
use netbox_openbao.Exec.{Outcome, ok}
use netbox_openbao.Exec.Outcomes.{◌>>=◌, Ensures, ensured, Ensures-guard, Ensures-chain}
use netbox_openbao.Json.{
  nan, infinite, Value, float, text, array, object, Items, nil, cons, Fields, end, field, entries,
}
use netbox_openbao.Administration.Cluster.{items}
use netbox_openbao.Administration.Redaction.{
  valid_key, shown, normalize_value, normalize_fields, normalize_items, normalize_access_response,
  has_null,
}
use netbox_openbao.Administration.Values.{text_length}

module _ (show : String → Bool) where
  -- The value without the fields that are not shown.
  mutual
    pub redact : Value → Value
    redact (object fields) = object (redact_fields fields)
    redact (array vs) = array (redact_items vs)
    redact v = v

    redact_fields : Fields → Fields
    redact_fields end = end
    redact_fields (field key v rest) =
        let others = redact_fields rest in
        let here = redact v in if show key then field key here others else others

    redact_items : Items → Items
    redact_items nil = nil
    redact_items (cons v rest) = cons (redact v) (redact_items rest)

  -- Whether every field, at any depth, is one to show.
  mutual
    pub all_shown : Value → Bool
    all_shown (object fields) = fields_shown fields
    all_shown (array vs) = items_shown vs
    all_shown _ = true

    fields_shown : Fields → Bool
    fields_shown end = true
    fields_shown (field key v rest) = show key && (all_shown v && fields_shown rest)

    items_shown : Items → Bool
    items_shown nil = true
    items_shown (cons v rest) = all_shown v && items_shown rest

  mutual
    unfolding redact all_shown

    redact-shown : (v : Value) → all_shown (redact v) ≡ true
    redact-shown (object fields) = redact_fields-shown fields
    redact-shown (array vs) = redact_items-shown vs
    redact-shown _ = refl

    redact_fields-shown : (fields : Fields) → fields_shown (redact_fields fields) ≡ true
    redact_fields-shown end = refl
    redact_fields-shown (field key v rest) =
        ground (arith, redact-shown v, redact_fields-shown rest)

    redact_items-shown : (vs : Items) → items_shown (redact_items vs) ≡ true
    redact_items-shown nil = refl
    redact_items-shown (cons v rest) = ground (arith, redact-shown v, redact_items-shown rest)

  mutual
    unfolding redact all_shown

    -- A value that shows nothing else is left as it is.
    redact-id : (v : Value) → all_shown v ≡ true → redact v ≡ v
    redact-id (object fields) h = ap object (redact_fields-id fields h)
    redact-id (array vs) h = ap array (redact_items-id vs h)
    redact-id _ h = refl

    redact_fields-id :
        (fields : Fields) → fields_shown fields ≡ true → redact_fields fields ≡ fields
    redact_fields-id end h = refl
    redact_fields-id (field key v rest) h =
        let (here, after) = and-true (show key) (all_shown v && fields_shown rest) h in
        let (child, others) = and-true (all_shown v) (fields_shown rest) after in
        rw (here, redact-id v child, redact_fields-id rest others) refl

    redact_items-id : (vs : Items) → items_shown vs ≡ true → redact_items vs ≡ vs
    redact_items-id nil h = refl
    redact_items-id (cons v rest) h =
        let (here, after) = and-true (all_shown v) (items_shown rest) h in
        rw (redact-id v here, redact_items-id rest after) refl

module _ (show : String → Bool) (every : (key : String) → show key ≡ true) where
  mutual
    unfolding all_shown

    every-shown : (v : Value) → all_shown show v ≡ true
    every-shown (object fields) = every_field-shown fields
    every-shown (array vs) = every_item-shown vs
    every-shown _ = refl

    every_field-shown : (fields : Fields) → fields_shown show fields ≡ true
    every_field-shown end = refl
    every_field-shown (field key v rest) =
        rw (every key, every-shown v, every_field-shown rest) refl

    every_item-shown : (vs : Items) → items_shown show vs ≡ true
    every_item-shown nil = refl
    every_item-shown (cons v rest) = rw (every-shown v, every_item-shown rest) refl

field-redact :
    (b : Bool) (key : String) (here : Outcome Value) (after : Outcome Fields) (child : Value)
    (rest : Fields)
    → Ensures (λ v. v ≡ child) here
    → Ensures (λ others. others ≡ rest) after
    → Ensures
        (λ kept. kept ≡ (if b then field key child rest else rest))
        (if b then (here >>= λ v. after >>= λ others. ok (field key v others)) else after)
field-redact false key here after child rest h k = k
field-redact true key here after child rest h k =
    Ensures-chain _ (λ v. v ≡ child) here _ h
      λ v same.
        Ensures-chain _ (λ others. others ≡ rest) after _ k λ others rest_same. cc (same, rest_same)

module _ (lower : String → String) (material : Bool) where
  abbrev visible : String → Bool
  visible = shown lower material

  mutual
    unfolding normalize_value redact

    normalize_value-redact :
        (depth : ℕ) (v : Value)
        → Ensures (λ w. w ≡ redact visible v) (normalize_value lower material depth v)
    normalize_value-redact depth (object fields) = Ensures-guard _ (leb depth 10) _ _ λ _.
        Ensures-guard _ (leb (length (entries fields)) 1000) _ _ λ _.
          Ensures-chain _ (λ kept. kept ≡ redact_fields visible fields)
            (normalize_fields lower material depth fields) _ (normalize_fields-redact depth fields)
            λ kept same. ap object same
    normalize_value-redact depth (array vs) = Ensures-guard _ (leb depth 10) _ _ λ _.
        Ensures-guard _ (leb (length (items vs)) 1000) _ _ λ _.
          Ensures-chain _ (λ kept. kept ≡ redact_items visible vs)
            (normalize_items lower material depth vs) _ (normalize_items-redact depth vs)
            λ kept same. ap array same
    normalize_value-redact depth (text s) =
        Ensures-guard _ (leb depth 10) _ _
          λ _. Ensures-guard _ (leb (text_length s) 256000 && not (has_null s)) _ _ λ _. refl
    normalize_value-redact depth (float nan) = tt
    normalize_value-redact depth (float (infinite b)) = tt
    normalize_value-redact depth v = Ensures-guard _ (leb depth 10) _ _ λ _. refl

    normalize_fields-redact :
        (depth : ℕ) (fields : Fields)
        → Ensures
            (λ kept. kept ≡ redact_fields visible fields)
            (normalize_fields lower material depth fields)
    normalize_fields-redact depth end = refl
    normalize_fields-redact depth (field key child rest) = Ensures-guard _ (valid_key key) _ _ λ _.
        field-redact (visible key) key (normalize_value lower material (suc depth) child)
          (normalize_fields lower material depth rest) (redact visible child)
          (redact_fields visible rest) (normalize_value-redact (suc depth) child)
          (normalize_fields-redact depth rest)

    normalize_items-redact :
        (depth : ℕ) (vs : Items)
        → Ensures (λ kept. kept ≡ redact_items visible vs) (normalize_items lower material depth vs)
    normalize_items-redact depth nil = refl
    normalize_items-redact depth (cons v rest) =
        Ensures-chain _ (λ w. w ≡ redact visible v) (normalize_value lower material (suc depth) v) _
          (normalize_value-redact (suc depth) v)
          λ w same.
            Ensures-chain _ (λ kept. kept ≡ redact_items visible rest)
              (normalize_items lower material depth rest) _ (normalize_items-redact depth rest)
              λ others rest_same. cc (same, rest_same)

  response-redact :
      (payload : Value)
      → Ensures (λ w. w ≡ redact visible payload) (normalize_access_response lower material payload)
  unfolding normalize_access_response redact
  response-redact (object fields) = Ensures-guard _ (leb (length (entries fields)) 1000) _ _ λ _.
      Ensures-chain _ (λ kept. kept ≡ redact_fields visible fields)
        (normalize_fields lower material 0 fields) _ (normalize_fields-redact 0 fields)
        λ kept same. ap object same
  response-redact _ = tt

  granted_shown : material ≡ true → (key : String) → visible key ≡ true
  unfolding shown
  granted_shown granted key = rw granted refl

  -- Where a response is accepted for display, what is displayed is the response without the fields
  -- that carry the name of a secret, whatever their case and depth; no such field is left; and
  -- nothing else is missing, so that a response without them is displayed as it is. To a caller who
  -- may see material, every field is shown.
  pub normalize_access_response-redact :
      (payload w : Value)
      → normalize_access_response lower material payload ≡ ok w
      → (w ≡ redact visible payload)
        × (all_shown visible w ≡ true)
        × (all_shown visible payload ≡ true → w ≡ payload)
        × (material ≡ true → w ≡ payload)
  normalize_access_response-redact payload w h =
      let same =
        ensured (λ x. x ≡ redact visible payload) (normalize_access_response lower material payload)
          (response-redact payload) h in
      (
        same,
        rw same (redact-shown visible payload),
        λ clean. same ∙ redact-id visible payload clean,
        λ granted.
            same ∙ redact-id visible payload (every-shown visible (granted_shown granted) payload),
      )
