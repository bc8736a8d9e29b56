-- ===== src/Validation/Accepted.antt =====
-- What routing can rely on for a body that validation accepts.
use mixapi.Shared.{
  ◌≡◌, refl, sym, ◌∙◌, Bool-cases, arith, Bool, true, false, not, ◌&&◌, Option, none, some, [], ◌∷◌,
  String, ok, >>=-ok, ok_injective, raise_if, raise_if-ok, inl, inr,
}
use mixapi.Errors.{validation_error, capability_unsupported}
use mixapi.Money.{Decimal}
use mixapi.Json.{Value, Fields, null, bool, int, float, str, arr, obj, nil, cons, get, get_in}
use mixapi.Routing.Requirements.{is_text, requires_strict_schema, requires_function_tools}
use mixapi.Validation.{
  value_or_null, is_truthy, arr_or_nil, is_one_of, has_response_input, validate_response_schema,
  validate_tools, validate_max_output_tokens, stream_of, is_key, validate_response_request,
}

-- The body asks for no strict schema where its format is not a JSON Schema.
no_json_schema :
    (format : Option Value)
    → is_one_of (value_or_null (get_in "type" format)) ("json_schema" ∷ []) ≡ false
    → is_text "json_schema" (get_in "type" format) ≡ false
no_json_schema format other = text_case (get_in "type" format) other
  where
    text_case :
        (kind : Option Value)
        → is_one_of (value_or_null kind) ("json_schema" ∷ []) ≡ false
        → is_text "json_schema" kind ≡ false
    text_case none h = refl
    text_case (some null) h = refl
    text_case (some (bool b)) h = refl
    text_case (some (int n)) h = refl
    text_case (some (float t)) h = refl
    text_case (some (str t)) h = ground (arith, h)
    text_case (some (arr vs)) h = refl
    text_case (some (obj fs)) h = refl

no_function_tools :
    (body : Fields)
    → is_truthy (arr_or_nil (value_or_null (get "tools" body))) ≡ false
    → requires_function_tools body ≡ false
unfolding requires_function_tools
no_function_tools body none_there = tools_case (get "tools" body) none_there
  where
    tools_case :
        (tools : Option Value)
        → is_truthy (arr_or_nil (value_or_null tools)) ≡ false
        → (elim tools [ some (arr (cons v vs)) ↦ true | _ ↦ false ]) ≡ false
    tools_case none h = refl
    tools_case (some null) h = refl
    tools_case (some (bool b)) h = refl
    tools_case (some (int n)) h = refl
    tools_case (some (float t)) h = refl
    tools_case (some (str t)) h = refl
    tools_case (some (arr nil)) h = refl
    tools_case (some (arr (cons v vs))) h = h
    tools_case (some (obj fs)) h = refl

module _ (strip : String → String) (decimal_of : Value → Option Decimal)
    (schema_is_valid : Value → Bool) where
  -- The tests that an accepted body has passed.
  pub record Passed (body : Fields) (key : Option String) : Type 0 where
    pub stream : Bool
    pub streamed : stream_of strip decimal_of schema_is_valid body ≡ ok stream
    schema : validate_response_schema strip decimal_of schema_is_valid body stream ≡ ok tt
    pub keyless : (stream && is_key strip decimal_of schema_is_valid key) ≡ false
    input :
        not (has_response_input strip decimal_of schema_is_valid (value_or_null (get "input" body)))
        ≡ false
    tools : (stream && is_truthy (arr_or_nil (value_or_null (get "tools" body)))) ≡ false

  pub validate-Passed :
      (body : Fields) (key : Option String)
      → validate_response_request strip decimal_of schema_is_valid body key ≡ ok tt
      → Passed body key
  unfolding validate_response_request
  validate-Passed body key accepted =
      let (stream, s1, r1) =
        >>=-ok (stream_of strip decimal_of schema_is_valid body) _ tt accepted in
      let (u2, s2, r2) =
        >>=-ok (validate_response_schema strip decimal_of schema_is_valid body stream) _ tt r1 in
      let (u3, s3, r3) =
        >>=-ok
          (raise_if (stream && is_key strip decimal_of schema_is_valid key)
            (validation_error "streaming_idempotency_unsupported"))
          _ tt r2 in
      let (u4, s4, r4) =
        >>=-ok
          (raise_if
            (not (
              has_response_input strip decimal_of schema_is_valid
                (value_or_null (get "input" body))))
            (validation_error "input_required"))
          _ tt r3 in
      let (u5, s5, r5) =
        >>=-ok
          (validate_max_output_tokens strip decimal_of schema_is_valid
            (value_or_null (get "max_output_tokens" body)))
          _ tt r4 in
      let (u6, s6, r6) =
        >>=-ok (validate_tools strip decimal_of schema_is_valid (value_or_null (get "tools" body)))
          _ tt r5 in
      let (u7, s7, r7) =
        >>=-ok
          (raise_if (stream && is_truthy (arr_or_nil (value_or_null (get "tools" body))))
            (capability_unsupported "streaming_tools_unsupported"))
          _ tt r6 in
      record {
        stream = stream;
        streamed = s1;
        schema = s2;
        keyless = raise_if-ok (stream && is_key strip decimal_of schema_is_valid key) _ u3 s3;
        input = raise_if-ok _ _ u4 s4;
        tools =
            raise_if-ok (stream && is_truthy (arr_or_nil (value_or_null (get "tools" body)))) _ u7
              s7;
      }

  unstreamed_schema :
      (body : Fields)
      → validate_response_schema strip decimal_of schema_is_valid body true ≡ ok tt
      → is_one_of
          (value_or_null (get_in "type" (get_in "format" (get "response" body))))
          ("json_schema" ∷ [])
        ≡ false
  unfolding validate_response_schema
  unstreamed_schema body passed =
      elim (Bool-cases (
        is_one_of (value_or_null (get_in "type" (get_in "format" (get "response" body))))
          ("json_schema" ∷ []))) [
            | inr other ↦ other
            | inl schema ↦
                let (u, _, refused) =
                  >>=-ok
                    (raise_if
                      (not (
                        schema_is_valid (
                          value_or_null
                            (get_in "json_schema" (get_in "format" (get "response" body))))))
                      (validation_error "invalid_json_schema"))
                    _ tt (rw (schema, validate_response_schema) at passed) in
                absurd (cc refused)
          ]

  -- A streaming request that validation accepts has no idempotency key, and asks routing for neither
  -- a strict schema nor function tools.
  pub accepted_stream :
      (body : Fields) (key : Option String)
      → validate_response_request strip decimal_of schema_is_valid body key ≡ ok tt
      → stream_of strip decimal_of schema_is_valid body ≡ ok true
      → (is_key strip decimal_of schema_is_valid key ≡ false)
        × (requires_strict_schema body ≡ false)
        × (requires_function_tools body ≡ false)
  unfolding requires_strict_schema
  accepted_stream body key accepted streaming =
      let passed = validate-Passed body key accepted in
      let on : passed.stream ≡ true = ok_injective (sym passed.streamed ∙ streaming) in
      (
        rw on at (passed.keyless),
        no_json_schema (get_in "format" (get "response" body))
            (unstreamed_schema body (rw on at (passed.schema))),
        no_function_tools body (rw on at (passed.tools)),
      )
