-- ===== src/Tests/Saved.antt =====
-- Names of saved tokens, the choice of the newest, and a new token.
use lattica_studio.Prelude.{ℕ, ◌≡◌, refl, List, [], ◌∷◌, some, none, true, ◌+◌, arith}
use lattica_studio.Result.{ok}
use lattica_studio.Studio.{text as text_value, no_fields, field, object, get_field, Backend, Act}
use lattica_studio.Credentials.{
  QueryToken, is_space, is_blank, make_identity, make_token, token_to_dict, token_from_dict,
}
use lattica_studio.Studio.TokenReplies.{created_token}
use lattica_studio.Studio.Tokens.{create_token, create_token_lem}
use lattica_studio.Storage.Paths.{
  is_kept, hex_digit, quote_byte, quote, escape_dots, encode_path_component,
}
use lattica_studio.Storage.Escape.{plain, unquote}
use lattica_studio.Storage.FileName.{IsFileName, encode-IsFileName}
use lattica_studio.Storage.Tokens.{at, gone, Candidate, is_after, is_newer, newest_from, newest}
use lattica_studio.Storage.Newest.{IsNewest, newest_lem}

-- "../a"
abbrev text : List ℕ
text = b'.' ∷ b'.' ∷ b'/' ∷ b'a' ∷ []

abbrev component : List ℕ
component = b'.' ∷ b'.' ∷ b'%' ∷ b'2' ∷ b'F' ∷ b'a' ∷ []

component_run : encode_path_component text ≡ ok component
unfolding encode_path_component quote quote_byte is_kept hex_digit escape_dots
component_run = refl

encode-IsFileName_example : IsFileName component × (unquote plain component ≡ text)
encode-IsFileName_example =
    encode-IsFileName text component (omega arith, (omega arith, (omega arith, (omega arith, tt))))
      component_run

abbrev older : Candidate
older = record { path = b'b' ∷ []; stat = at 5; content = none }

abbrev same_time : Candidate
same_time = record { path = b'a' ∷ []; stat = at 7; content = none }

abbrev latest : Candidate
latest = record { path = b'a' ∷ b'c' ∷ []; stat = at 7; content = none }

abbrev removed : Candidate
removed = record { path = b'z' ∷ []; stat = gone; content = none }

abbrev candidates : List Candidate
candidates = older ∷ latest ∷ removed ∷ same_time ∷ []

latest_run : newest candidates ≡ ok latest
unfolding newest newest_from is_newer is_after
latest_run = refl

newest_lem_example : (m : ℕ) × IsNewest latest m candidates
newest_lem_example = newest_lem candidates latest latest_run

-- A backend that answers each call with a token, and counts the calls.
abbrev backend : Backend ℕ
backend = record {
  call = λ endpoint params b. (
    b + 1,
    ok (object (field "tokenId" (text_value "t1") (field "token" (text_value "secret") no_fields))),
  );
  now = λ b. b;
  sleep = λ k b. b + k;
}

abbrev save : QueryToken → Act ℕ (Unit {0})
save token b = (b + 10, ok tt)

abbrev token : QueryToken
token = record { value = "secret"; identity = record { id = "t1"; name = some "mine" } }

create_run : create_token backend save "x9" "m1" (some "mine") true 0 ≡ (11, ok token)
unfolding create_token created_token get_field make_identity make_token is_blank is_space
create_run = refl

create_token_lem_example :
    (token.identity.name ≡ some "mine") × (token_from_dict (token_to_dict token) ≡ ok token)
create_token_lem_example =
    create_token_lem backend save "x9" "m1" (some "mine") true 0 11 token create_run
