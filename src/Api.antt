-- ===== src/Api.antt =====
-- api/common/common.go: the problems that a request is answered with, and the answer of a handler.
-- The request's own data in a problem (its identifier, path and time) are left out.
use sshark_api.Base.{ℕ, List, ◌++◌}
use sshark_api.Base.Text.{Text, codes, join}

pub record ApiError : Type 0 where
  pub status_code : ℕ
  pub code : Text
  pub message : Text
  pub details : Text
  pub suggestion : Text

-- A handler answers with a status and a body, or hands an error to the error handler.
pub data Response (A : Type 0) : Type 0 where
  json : ℕ → A → Response A
  no_content : Response A
  problem : ApiError → Response A
  -- A status and the text of the field `error`.
  failure : ℕ → Text → Response A

abbrev pub status_ok : ℕ
status_ok = 200

unfoldable pub invalid_path_param_error : ApiError
invalid_path_param_error = record {
  status_code = 400;
  code = codes "INVALID_PATH_PARAM";
  message = codes "Not a valid path param";
  details = codes "The URL is not valid. This is unexpected";
  suggestion = codes "Return to the home page.";
}

unfoldable pub invalid_query_param_error : List Text → ApiError
invalid_query_param_error available = record {
  status_code = 400;
  code = codes "INVALID_QUERY_PARAM";
  message = codes "Not a valid query param";
  details =
      codes "The URL is not valid. The following query params are available: "
      ++ join available (codes ",");
  suggestion = codes "Return to the home page.";
}

unfoldable pub internal_error : ApiError
internal_error = record {
  status_code = 500;
  code = codes "INTERNAL_ERROR";
  message = codes "Internal error";
  details = codes "An internal error has occurred. Please try again later.";
  suggestion = codes "Return to the home page or try again.";
}

unfoldable pub unauthorized_error : ApiError
unauthorized_error = record {
  status_code = 401;
  code = codes "UNAUTHORIZED";
  message = codes "Unauthorized";
  details = codes "This endpoint requires a signed-in user.";
  suggestion = codes "Sign in and try again.";
}

unfoldable pub key_not_found_error : ApiError
key_not_found_error = record {
  status_code = 404;
  code = codes "KEY_NOT_FOUND";
  message = codes "Key not found";
  details =
      codes "This key does not exist, or it is not published under an account you have connected.";
  suggestion = codes "Refresh your keys, then try again.";
}

unfoldable pub invalid_username_error : Text → ApiError
invalid_username_error details = record {
  status_code = 400;
  code = codes "INVALID_USERNAME";
  message = codes "Not a valid username";
  details = details;
  suggestion = codes "Use 3 to 39 letters, digits, dashes or underscores.";
}

-- The name is quoted as `%q` quotes a name without special characters.
unfoldable pub username_taken_error : Text → ApiError
username_taken_error username = record {
  status_code = 409;
  code = codes "USERNAME_TAKEN";
  message = codes "Username already taken";
  details = codes "Someone else already holds \"" ++ (username ++ codes "\".");
  suggestion = codes "Pick a different username.";
}

unfoldable pub profile_not_found_error : ApiError
profile_not_found_error = record {
  status_code = 404;
  code = codes "PROFILE_NOT_FOUND";
  message = codes "Profile not found";
  details = codes "No SShark account holds this username.";
  suggestion = codes "Check the spelling, or search for the name instead.";
}

unfoldable pub task_not_found_error : ApiError
task_not_found_error = record {
  status_code = 404;
  code = codes "TASK_NOT_FOUND";
  message = codes "Task not found";
  details = codes "No task with this identifier belongs to you.";
  suggestion = codes "Check the identifier, or list your recent tasks.";
}

unfoldable pub provider_not_connected_error : Text → ApiError
provider_not_connected_error provider = record {
  status_code = 403;
  code = codes "PROVIDER_NOT_CONNECTED";
  message = codes "Provider account not connected";
  details = codes "No " ++ (provider ++ codes " account is connected to your sshark account.");
  suggestion = codes "Connect your " ++ (provider ++ codes " account, then try again.");
}

unfoldable pub provider_forbidden_error : Text → Text → ApiError
provider_forbidden_error provider scope = record {
  status_code = 403;
  code = codes "PROVIDER_FORBIDDEN";
  message = codes "Provider refused the operation";
  details = provider ++ codes " did not allow sshark to manage your keys on your behalf.";
  suggestion =
      codes "Reconnect your "
      ++ (provider ++ (codes " account and grant the `" ++ (scope ++ codes "` permission.")));
}

unfoldable pub provider_unavailable_error : Text → ApiError
provider_unavailable_error provider = record {
  status_code = 502;
  code = codes "PROVIDER_UNAVAILABLE";
  message = codes "Provider unavailable";
  details =
      codes "sshark could not reach " ++ (provider ++ codes ". Your keys were left untouched.");
  suggestion = codes "Try again in a few moments.";
}

unfoldable pub invalid_search_query_error : Text → Text → List Text → ApiError
invalid_search_query_error error q examples = record {
  status_code = 400;
  code = codes "INVALID_SEARCH_QUERY";
  message = codes "Not a valid search query";
  details =
      codes "The search query `"
      ++ (q
          ++ (codes "` is not a valid search. We found the following technical error: " ++ error));
  suggestion =
      codes "You can use one the following query `"
      ++ (join examples (codes "`,`") ++ codes "` or get mode examples in the documentation.");
}
