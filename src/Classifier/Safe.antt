-- ===== src/Classifier/Safe.antt =====
-- `_code_is_safe` of semantic_engine/classifier/classifier.py. Its patterns are regular expressions of
-- Python's `re`, named here and searched for by an argument.
use control_gate_backend.Prelude.{
  String, Bool, false, not, ◌&&◌, ◌||◌, Option, none, some, [], ◌∷◌, str_eq,
}
use control_gate_backend.Prelude.Dict.{contains}
use control_gate_backend.Prelude.Texts.{Text}

-- The compiled patterns by their names, and those written in the body by what they look for.
pub data Pattern : Type 0 where
  defusedxml parameterized_sql parameterized_sql2 parameterized_sql_bind : Pattern
  sqlalchemy_attr_compare js_query_array_args mongo_string_only_safe : Pattern
  subprocess_list subprocess_safe_list subprocess_shell_true : Pattern
  execfile_array execfile_binary_array shlex_quote_safe compiled_regex : Pattern
  path_file_ops path_realpath_prefix path_normpath_guard_open path_normpath_var_guard : Pattern
  path_js_normalize_guard sendfile_root_safe normalize_prefix_strip : Pattern
  owner_guard safe_loader secure_cookie environment_variable orm_filter request_cast : Pattern
  spawn_array no_external_entities allowlist_check log_username log_password : Pattern
  nested_quantifier regex_use : Pattern
  static_template html_escape_safe xss_encode_safe xss_quote_guard_safe : Pattern
  xss_static_jquery_safe text_plain_response : Pattern
  relative_direct_fetch relative_url_var_fetch absolute_or_parsed_url : Pattern
  visual_random_context secret_context : Pattern

-- `re.search` for each pattern, and the first group of the search for the source of a regex.
pub record Searches : Type 0 where
  pub search : Pattern → Text → Bool
  pub regex_source : Text → Option Text

module _ (re : Searches) (code : Text) where
  abbrev finds : Pattern → Bool
  finds p = re.search p code

  abbrev has_bound_sql : Bool
  has_bound_sql =
      finds Pattern.parameterized_sql
      || finds Pattern.parameterized_sql2
      || finds Pattern.parameterized_sql_bind
      || finds Pattern.js_query_array_args

  abbrev has_list_call : Bool
  has_list_call =
      (finds Pattern.subprocess_safe_list && not (finds Pattern.subprocess_shell_true))
      || finds Pattern.execfile_binary_array

  abbrev is_safe_query : Bool
  is_safe_query =
      has_bound_sql || finds Pattern.sqlalchemy_attr_compare || finds Pattern.mongo_string_only_safe

  abbrev is_safe_command : Bool
  is_safe_command =
      finds Pattern.subprocess_list
      || finds Pattern.execfile_array
      || has_list_call
      || finds Pattern.shlex_quote_safe

  abbrev is_safe_path : Bool
  is_safe_path =
      not (finds Pattern.path_file_ops)
      || finds Pattern.path_realpath_prefix
      || finds Pattern.path_normpath_guard_open
      || finds Pattern.path_normpath_var_guard
      || finds Pattern.path_js_normalize_guard
      || finds Pattern.sendfile_root_safe
      || finds Pattern.normalize_prefix_strip

  -- a regex in the snippet without nested quantifiers
  abbrev has_plain_regex : Bool
  has_plain_regex = elim (re.regex_source code) [
    | none ↦ false
    | some source ↦ not (re.search Pattern.nested_quantifier source)
  ]

  abbrev is_safe_discovery : Bool
  is_safe_discovery =
      finds Pattern.safe_loader
      || finds Pattern.secure_cookie
      || finds Pattern.environment_variable
      || finds Pattern.orm_filter
      || finds Pattern.request_cast
      || has_bound_sql
      || has_list_call
      || finds Pattern.spawn_array
      || finds Pattern.no_external_entities
      || finds Pattern.allowlist_check
      || (finds Pattern.log_username && not (finds Pattern.log_password))
      || (has_plain_regex && finds Pattern.regex_use)

  abbrev is_safe_output : Bool
  is_safe_output =
      finds Pattern.static_template
      || finds Pattern.html_escape_safe
      || finds Pattern.xss_encode_safe
      || finds Pattern.xss_quote_guard_safe
      || finds Pattern.xss_static_jquery_safe
      || finds Pattern.text_plain_response

  abbrev is_relative_fetch : Bool
  is_relative_fetch =
      (finds Pattern.relative_direct_fetch || finds Pattern.relative_url_var_fetch)
      && not (finds Pattern.absolute_or_parsed_url)

  -- `_code_is_safe`: each test that returns `True`, in its order
  abbrev pub code_is_safe : String → Bool
  code_is_safe rule_id =
      finds Pattern.defusedxml
      || (contains ("SQL_INJECTION" ∷ "NOSQL_INJECTION" ∷ "BROKEN_ACCESS_CONTROL" ∷ []) rule_id
          && is_safe_query)
      || (contains ("COMMAND_INJECTION" ∷ "CODE_INJECTION" ∷ []) rule_id && is_safe_command)
      || (str_eq "CODE_INJECTION" rule_id && finds Pattern.compiled_regex)
      || (str_eq "PATH_TRAVERSAL" rule_id && is_safe_path)
      || (contains ("PATH_DISCOVERY" ∷ "BROKEN_ACCESS_CONTROL" ∷ "INPUT_VALIDATION_MISSING" ∷ [])
            rule_id
          && finds Pattern.owner_guard)
      || (str_eq "PATH_DISCOVERY" rule_id && is_safe_discovery)
      || (str_eq "REGEX_DOS" rule_id && has_plain_regex)
      || (contains ("TEMPLATE_INJECTION" ∷ "XSS" ∷ []) rule_id && is_safe_output)
      || (contains ("SSRF" ∷ "UNVALIDATED_REDIRECT" ∷ []) rule_id && finds Pattern.allowlist_check)
      || (str_eq "SSRF" rule_id && is_relative_fetch)
      || (contains ("INSECURE_RANDOM" ∷ "OTP_INSECURE_RANDOM" ∷ []) rule_id
          && finds Pattern.visual_random_context
          && not (finds Pattern.secret_context))
