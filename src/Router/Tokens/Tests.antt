-- ===== src/Router/Tokens/Tests.antt =====
-- The token estimate on concrete bodies, and its theorems at inputs that meet their hypotheses.
use fde_assessment.Base.Unicode.{text_length}
use fde_assessment.Base.{◌+◌, ◌*◌, ◌≤◌, ◌≡◌, ◌⊎◌, refl, none, arith}
use fde_assessment.Base.Int.{pos, negsuc}
use fde_assessment.Json.{Fields, int, str, arr, obj, nil, cons, end, field}
use fde_assessment.Router.Tokens.{
  count_text_tokens, serialised, serialised_floor, walk_text, positive_int, requested_max,
  multiplier, message_tokens, completion_ceiling, prompt_tokens, estimate_request_tokens, sane,
  reported, actual_tokens_from_response, items_length, max_reported_tokens,
}
use fde_assessment.Router.Tokens.Samples.{plain}
use fde_assessment.Router.Tokens.Bounds.{
  Occurs, in_obj, key, count_text_tokens_rounds_up, estimate_is_ceiling, actual_tokens_bounds,
}

abbrev body : Fields (Unit {0})
body = field "model" (str "a-model") (
    field "messages" (arr (cons (str "hello there") nil))
      (field "max_tokens" (int (pos 100)) (field "n" (int (pos 3)) end)))

estimate-body : estimate_request_tokens plain 4096 none body ≡ 317
unfolding estimate_request_tokens prompt_tokens walk_text serialised_floor serialised
    count_text_tokens text_length message_tokens items_length completion_ceiling requested_max
    positive_int multiplier
estimate-body = refl

text_tokens_of_hello_test :
    (1 ≤ count_text_tokens plain "hello there")
    × (text_length "hello there" * 5 ≤ count_text_tokens plain "hello there" * 18)
text_tokens_of_hello_test = count_text_tokens_rounds_up plain "hello there" refl refl

estimate_of_hello_test :
    let estimate = estimate_request_tokens plain 4096 none body in
    (1 ≤ estimate)
    × (serialised_floor plain body + completion_ceiling plain 4096 none body * multiplier body
        ≤ estimate)
estimate_of_hello_test = estimate_is_ceiling plain 4096 none body

model_name : Occurs "metadata" 0 (obj (field "metadata" (str "long") body))
model_name = in_obj (omega arith) key

abbrev payload : Fields (Unit {0})
payload = field "usage" (obj (field "total_tokens" (int (pos 99000000)) end)) end

clamped : actual_tokens_from_response payload 7 ≡ 10000000
unfolding actual_tokens_from_response reported sane
clamped = refl

negative_figure :
    actual_tokens_from_response {F = Unit {0}}
      (field "usage" (obj (field "total_tokens" (int (negsuc 4)) end)) end)
      7
    ≡ 7
unfolding actual_tokens_from_response reported sane
negative_figure = refl

tokens_of_a_reply_test :
    (actual_tokens_from_response payload 7 ≡ 7)
    ⊎ (actual_tokens_from_response payload 7 ≤ max_reported_tokens)
tokens_of_a_reply_test = actual_tokens_bounds payload 7
