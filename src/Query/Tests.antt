-- ===== src/Query/Tests.antt =====
-- Compiled queries, and the theorems of the compiler at one of them.
use imap_mcp.Prelude.{
  ◌≡◌, refl, true, [], ◌∷◌, Option, none, some, Text, bytes, text_eq, contains, length,
}
use imap_mcp.Prelude.Int.{ℤ, pos}
use imap_mcp.Query.{
  Query, Compiled, compile, compile_view, compile_columns, plain_columns, compile_filters,
  compile_order, limit_of, statement, clause, position, itoa,
}
use imap_mcp.Query.Views.{text_kind, int_kind, view_in, views, field_in, messages_view}
use imap_mcp.Query.Values.{
  text, text_arg, int_arg, ok, err, bad_limit, coerce, coerce_kind, escape_like,
}
use imap_mcp.Query.Filters.{
  single, many, compile_filter, field_filter, in_filter, like_filter, coerce_all, join, marks,
  text_of, list_of,
}
use imap_mcp.Query.Columns.{names_of, field_columns, field_column, add_column}
use imap_mcp.Query.Marks.{marks_in}
use imap_mcp.Query.Placeholders.{compile-marks}
use imap_mcp.Query.Results.{is_body_name, body_named}

abbrev no_layout : Text → Text → Option ℤ
no_layout layout s = none

abbrev ask : Query
ask = record {
  view = bytes "messages";
  fields = bytes "id" ∷ bytes "body_text" ∷ [];
  where_all =
      record { field = bytes "subject"; op = bytes "contains"; value = single (text (bytes "50%")) }
      ∷ record {
        field = bytes "account";
        op = bytes "nin";
        value = many (text (bytes "a?") ∷ text (bytes "b") ∷ []);
      }
      ∷ [];
  group_by = [];
  aggregate = [];
  order_by = record { field = bytes "id"; desc = true } ∷ [];
  limit = pos 10;
  offset = pos 0;
}

abbrev answer : Compiled
answer = record {
  sql =
      bytes
        "SELECT m.id, m.body_text FROM messages m WHERE m.subject LIKE ? ESCAPE '\\' AND m.account NOT IN (?, ?) ORDER BY 1 DESC LIMIT ? OFFSET ?";
  args =
      text_arg (bytes "%50\\%%")
      ∷ text_arg (bytes "a?")
      ∷ text_arg (bytes "b")
      ∷ int_arg (pos 11)
      ∷ int_arg (pos 0)
      ∷ [];
  columns =
      record { name = bytes "id"; expr = bytes "m.id"; kind = int_kind }
      ∷ record { name = bytes "body_text"; expr = bytes "m.body_text"; kind = text_kind }
      ∷ [];
  limit = 10;
}

answered : compile no_layout ask 0 ≡ ok answer
unfolding compile compile_view compile_columns plain_columns compile_filters compile_order limit_of
    statement clause position itoa view_in field_in field_columns field_column add_column
    compile_filter field_filter in_filter like_filter coerce_all join marks text_of list_of
    escape_like coerce coerce_kind contains
answered = refl

too_many : compile no_layout (record ask { limit = pos 1001 }) 0 ≡ err bad_limit
unfolding compile compile_view compile_columns plain_columns compile_filters compile_order limit_of
    statement clause position itoa view_in field_in field_columns field_column add_column
    compile_filter field_filter in_filter like_filter coerce_all join marks text_of list_of
    escape_like coerce coerce_kind contains
too_many = refl

viewed : view_in views ask.view ≡ some messages_view
unfolding view_in text_eq
viewed = refl

is_body : is_body_name messages_view.fields (bytes "body_text") ≡ true
unfolding field_in text_eq
is_body = refl

compile-marks_example : marks_in answer.sql ≡ length answer.args
compile-marks_example = compile-marks no_layout ask 0 answer answered

body_named_example :
    contains (names_of answer.columns) (bytes "body_text") ≡ contains ask.fields (bytes "body_text")
body_named_example =
    body_named no_layout ask 0 answer messages_view (bytes "body_text") answered viewed refl is_body
