-- ===== src/Examples/Tokens.antt =====
-- A stand-in for syn in which a type is one identifier and an expression is one literal, and the tokens
-- of the parsed tree of the example.
use Prim.Native.String.{String}
use text.Mathlib.Text.{◌==◌ as str_eq}
use hsmc.Examples.Lowering.{door, door_accepted, no_bytes, half_second, compiled}
use hsmc.Macro.{statechart_impl}
use hsmc.Parse.{parse}
use hsmc.Parse.Pieces.{squeeze}
use hsmc.Parse.Print.{IsInput, IsBody, print}
use hsmc.Parse.Accepted.{parse-ne-out_of_fuel, parse-IsInput}
use hsmc.Parse.RoundTrip.{parse-print}
use hsmc.Prelude.{
  ◌+◌, ◌<◌, ◌≡◌, ◌≢◌, refl, Bool, true, false, not, All, Option, none, some, if◌then◌else◌, arith,
}
use hsmc.Refusal.{accepted, refused, out_of_fuel, syntax}
use hsmc.Syn.{
  item_names, Syn, Tokens, Punct, Delimiter, size, done, ident, punct, literal, group, brace, paren,
  colon, semi, comma, arrow, path_sep,
}

abbrev pub same_punct : Punct → Punct → Bool
same_punct colon colon = true
same_punct semi semi = true
same_punct comma comma = true
same_punct arrow arrow = true
same_punct path_sep path_sep = true
same_punct p q = false

abbrev pub same_delimiter : Delimiter → Delimiter → Bool
same_delimiter brace brace = true
same_delimiter paren paren = true
same_delimiter d e = false

abbrev pub word : String → Bool
word s = not (str_eq s "match")

abbrev pub read_ident : Tokens → Option (String × Tokens)
read_ident (ident s ts) = if word s then some (s, ts) else none
read_ident ts = none

abbrev pub read_punct : Punct → Tokens → Option Tokens
read_punct p (punct q ts) = if same_punct p q then some ts else none
read_punct p ts = none

abbrev pub read_group : Delimiter → Tokens → Option (Tokens × Tokens)
read_group d (group e inner ts) = if same_delimiter d e then some (inner, ts) else none
read_group d ts = none

abbrev pub read_type : Tokens → Option (String × Tokens)
read_type (ident t ts) = some (t, ts)
read_type ts = none

abbrev pub read_expr : Tokens → Option (String × Tokens)
read_expr (literal e ts) = some (e, ts)
read_expr ts = none

pub ident_word :
    (ts : Tokens) (s : String) (rest : Tokens) → read_ident ts ≡ some (s, rest) → word s ≡ true
ident_word (ident t ts) s rest h = ground arith
ident_word ts s rest h = cc

pub ident_less :
    (ts : Tokens) (s : String) (rest : Tokens)
    → read_ident ts ≡ some (s, rest)
    → size rest < size ts
unfolding size
ident_less (ident t ts) s rest h = ground arith
ident_less ts s rest h = cc

pub punct_less : (p : Punct) (ts rest : Tokens) → read_punct p ts ≡ some rest → size rest < size ts
unfolding size
punct_less p (punct q ts) rest h = ground arith
punct_less p ts rest h = cc

pub group_less :
    (d : Delimiter) (ts inner rest : Tokens)
    → read_group d ts ≡ some (inner, rest)
    → size inner + size rest < size ts
unfolding size
group_less d (group e us ts) inner rest h = ground arith
group_less d ts inner rest h = cc

pub type_less :
    (ts : Tokens) (t : String) (rest : Tokens) → read_type ts ≡ some (t, rest) → size rest < size ts
unfolding size
type_less (ident t ts) s rest h = ground arith
type_less ts s rest h = cc

pub expr_less :
    (ts : Tokens) (t : String) (rest : Tokens) → read_expr ts ≡ some (t, rest) → size rest < size ts
unfolding size
expr_less (literal t ts) s rest h = ground arith
expr_less ts s rest h = cc

pub same_punct_refl : (p : Punct) (ts : Tokens) → read_punct p (punct p ts) ≡ some ts
same_punct_refl colon ts = refl
same_punct_refl p ts = refl

pub same_delimiter_refl :
    (d : Delimiter) (us ts : Tokens) → read_group d (group d us ts) ≡ some (us, ts)
same_delimiter_refl brace us ts = refl
same_delimiter_refl d us ts = refl

pub items_accepted : All (λ w. word w ≡ true) item_names
items_accepted = (
  refl,
  (refl, (refl, (refl, (refl, (refl, (refl, (refl, (refl, (refl, (refl, (refl, tt))))))))))),
)

abbrev pub words : Syn
words = record {
  accepts = word;
  parse_ident = read_ident;
  parse_punct = read_punct;
  parse_group = read_group;
  parse_type = read_type;
  parse_expr = read_expr;
  is_number = λ e. str_eq e "5";
  to_text = λ e. e;
  type_tokens = ident;
  expr_tokens = λ e. literal e done;
  accepts_items = items_accepted;
  ident_read = λ s ts. refl;
  ident_accepted = ident_word;
  punct_read = same_punct_refl;
  punct_done = λ p. refl;
  punct_group = λ p d us ts. refl;
  comma_semi = λ ts. refl;
  group_read = same_delimiter_refl;
  paren_brace = λ us ts. refl;
  type_read = λ t ts ends. refl;
  expr_read = λ e. refl;
  ident_shrinks = ident_less;
  punct_shrinks = punct_less;
  group_shrinks = group_less;
  type_shrinks = type_less;
  expr_shrinks = expr_less;
}

pub door_written : IsInput words door
unfolding IsBody squeeze
door_written = ground arith

pub door_read : parse words (print words door) ≡ accepted door
door_read = parse-print words door door_written

pub door-compiled :
    statechart_impl words no_bytes half_second (print words door) ≡ accepted compiled
unfolding statechart_impl
door-compiled = rw door_read door_accepted

parse-print_example : parse words (print words door) ≡ accepted door
parse-print_example = parse-print words door door_written

parse-IsInput_example : IsInput words door
parse-IsInput_example = parse-IsInput words (print words door) door door_read

-- A stream that ends inside an item.
abbrev cut_off : Tokens
cut_off = ident "Door" (group brace (ident "entry" (punct colon (ident "ring" done))) done)

parse-ne-out_of_fuel_example : parse words cut_off ≢ refused out_of_fuel
parse-ne-out_of_fuel_example = parse-ne-out_of_fuel words cut_off

cut_off_refused : parse words cut_off ≡ refused syntax
unfolding parse hsmc.Syn.size hsmc.Parse.Pieces.more_idents
cut_off_refused = refl
