-- ===== src/Llm/Tests.antt =====
-- Runs of Request.Validate.
use kokekokkor.Llm.Accepted.{IsAcceptable, validate-IsAcceptable}
use kokekokkor.Common.{String, ◌↔◌, ◌≡◌, refl, Bool, true, false, none, [], ◌∷◌, ok, err}
use kokekokkor.Llm.{
  pos, ContentBlock, text_block, tool_result_block, no_blocks, more_blocks, Tool, Request,
}
use kokekokkor.Llm.Validate.{
  bad_content, invalid_content, duplicate_tool_name, is_role, is_negative, is_below,
  is_bad_citation, check_citations, is_bad_json, validate_content, check_content, check_messages,
  seen_before, check_tools, check_tool_choice, check_response_format, check_response_state,
  validate,
}

abbrev all_valid : String → Bool
all_valid raw = true

abbrev lookup_tool : Tool
lookup_tool = record {
  kind = "";
  name = "find";
  description = "";
  input_schema = "{}";
  metadata = [];
}

abbrev cited : ContentBlock
cited =
    text_block "abc" (record { start_index = pos 1; end_index = pos 3; url = "u"; title = "" } ∷ [])

abbrev asked : Request
asked = record {
  model = "m";
  messages =
      record {
        role = "user";
        name = "";
        content =
            more_blocks cited (
              more_blocks (tool_result_block "t" "" (more_blocks cited no_blocks) false) no_blocks);
        metadata = [];
      }
      ∷ [];
  tools = lookup_tool ∷ [];
  tool_choice = none;
  reasoning = none;
  response_format = none;
  response_state = none;
  max_output_tokens = none;
  temperature = none;
  top_p = none;
  stop = [];
  metadata = [];
}

accepts : validate all_valid asked ≡ ok tt
unfolding validate is_role is_negative is_below is_bad_citation check_citations is_bad_json
    validate_content seen_before check_messages check_content check_tools check_tool_choice
    check_response_format check_response_state
accepts = refl

refuses_twin_tools :
    validate all_valid (record asked { tools = lookup_tool ∷ lookup_tool ∷ [] })
    ≡ err (duplicate_tool_name 1 "find")
unfolding validate is_role is_negative is_below is_bad_citation check_citations is_bad_json
    validate_content seen_before check_messages check_content check_tools check_tool_choice
    check_response_format check_response_state
refuses_twin_tools = refl

refuses_nameless_result :
    validate all_valid (record asked {
      messages =
          record {
            role = "user";
            name = "";
            content = more_blocks (tool_result_block "" "" no_blocks false) no_blocks;
            metadata = [];
          }
          ∷ [];
    })
    ≡ err (bad_content 0 0 invalid_content)
unfolding validate is_role validate_content check_messages check_content
refuses_nameless_result = refl

validate-IsAcceptable_example : (validate all_valid asked ≡ ok tt) ↔ IsAcceptable all_valid asked
validate-IsAcceptable_example = validate-IsAcceptable all_valid asked
