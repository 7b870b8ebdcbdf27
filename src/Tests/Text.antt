-- ===== src/Tests/Text.antt =====
-- The text of a configuration file.
use qaoed.Base.{◌≡◌, refl, pos, String, List, [], ◌∷◌, none, some, true, false, done, fault}
use qaoed.Rcfg.{
  null, assignment, block, first, processtokens, recursiveparse, parse_from, parse_at, parse_block,
  parse_assignment, find_end,
}
use qaoed.Rcfg.Readconfig.{config, readconfig, to_config}
use qaoed.Rcfg.Check.{
  validatetokens, and_then, countbraces, count_token, checktokenlist, check_words, is_keyword,
  checkdatatype, check_types, check_entries, check_entry, check_block, check_assignment, scan_value,
  checkargs, check_arglist, check_arg,
}
use qaoed.Rcfg.Tokens.{
  Scan, scan_lines, unread, skip_blanks, without_first, after_comment, walk, size, take_first,
  strip, skip_comment, add_token, extract, round, go_on, scan_rounds, scan_line,
}
use qaoed.Rcfg.Tokens.Ends.{scan_lines-Returns, Returns}
use qaoed.Rcfg.Tokens.Include.{
  parsed, Files, Checks, append_tokens, include_file, include_files, include_matches, include_at,
  include_all, include_checked, finish_tokens, tokenize,
}
use qaoed.Rcfg.Tokens.Accepted.{tokenize-Accepts, Accepts}

-- A comment over two lines, a quotation with a blank in it, and a block.
abbrev text : List String
text =
    "/* a file that is\n" ∷ "exported */ device {\n" ∷ "\ttarget = \"/srv/my disk\"; # writable\n"
    ∷ "}\n" ∷ []

abbrev words : List String
words = "device" ∷ "{" ∷ "target" ∷ "=" ∷ "/srv/my disk" ∷ ";" ∷ "}" ∷ []

abbrev after_text : Scan
after_text = record { comment = false; quotation = false; tokens = words }

text_scanned : scan_lines (some unread) text ≡ done (some after_text)
unfolding scan_lines scan_line scan_rounds go_on round skip_comment extract add_token strip
    take_first size walk after_comment without_first skip_blanks first
text_scanned = refl

-- The empty string is no value.
empty_refused : scan_lines (some unread) ("target = \"\";\n" ∷ []) ≡ done none
unfolding scan_lines scan_line scan_rounds go_on round skip_comment extract add_token strip
    take_first size walk after_comment without_first skip_blanks first
empty_refused = refl

scan_lines-Returns_example : Returns (scan_lines (some unread) text)
scan_lines-Returns_example = scan_lines-Returns (some unread) text

-- The checks accept all; the directory holds one file.
abbrev pub checks : Checks
checks = record { sscanf = λ value format. (pos 1, 4); strstr = λ arguments value. true }

abbrev files : Files
files = record {
  glob = λ name. some ("/etc/qaoed.d/disk" ∷ []);
  fopen = λ name. some ("shelf = 1;\n" ∷ []);
}

abbrev main_file : List String
main_file = "include = /etc/qaoed.d/*;\n" ∷ []

abbrev all_words : List String
all_words = "include" ∷ "=" ∷ "/etc/qaoed.d/*" ∷ ";" ∷ "shelf" ∷ "=" ∷ "1" ∷ ";" ∷ []

main_file_read : tokenize checks files 2 main_file ≡ done (parsed all_words)
unfolding tokenize finish_tokens include_checked include_all include_at include_matches
    include_files include_file append_tokens scan_lines scan_line scan_rounds go_on round
    skip_comment extract add_token strip take_first size walk after_comment without_first
    skip_blanks first validatetokens and_then countbraces count_token checktokenlist check_words
    is_keyword checkdatatype check_types check_entries check_entry check_block check_assignment
    scan_value checkargs check_arglist check_arg
main_file_read = refl

tokenize-Accepts_example :
    (st : Scan) × (scan_lines (some unread) main_file ≡ done (some st))
    × Accepts checks st all_words
tokenize-Accepts_example = tokenize-Accepts checks files 2 main_file all_words main_file_read

-- A value that is the word `include` is taken for the keyword, and the token behind it is read.
value_include : tokenize checks files 2 ("target = include;\n" ∷ []) ≡ fault
unfolding tokenize finish_tokens include_checked include_all include_at include_matches
    include_files include_file append_tokens scan_lines scan_line scan_rounds go_on round
    skip_comment extract add_token strip take_first size walk after_comment without_first
    skip_blanks first validatetokens and_then countbraces count_token checktokenlist check_words
    is_keyword checkdatatype check_types check_entries check_entry check_block check_assignment
    scan_value checkargs check_arglist check_arg
value_include = refl

abbrev one_file : Files
one_file = record { glob = λ name. none; fopen = λ name. some text }

text_read :
    readconfig checks one_file 1 "qaoed.conf"
    ≡ done (
        config
          (block "qaoed.conf" (block "device" (assignment "target" "/srv/my disk" null) null) null))
unfolding readconfig to_config processtokens recursiveparse parse_from parse_at parse_block
    parse_assignment find_end tokenize finish_tokens include_checked include_all include_at
    scan_lines scan_line scan_rounds go_on round skip_comment extract add_token strip take_first
    size walk after_comment without_first skip_blanks first validatetokens and_then countbraces
    count_token checktokenlist check_words is_keyword checkdatatype check_types check_entries
    check_entry check_block check_assignment scan_value checkargs check_arglist check_arg
text_read = refl
