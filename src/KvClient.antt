-- ===== src/KvClient.antt =====
-- kvclient.cpp: the interactive client. A line of the user is a list of bytes without line end, and
-- what the program prints is a text; the prompt is left out.
pub mod Commands
pub mod Input
use load_tester_project.Base.{
  ℕ, zero, suc, Bool, true, false, ◌||◌, List, [], ◌∷◌, ◌++◌, Option, none, some, Bytes, codes,
  if◌then◌else◌, length, drop, str_eq, ◌==◌,
}
use load_tester_project.Base.Result.{Result, ok, throw, out_of_fuel, ◌>>=◌}
use load_tester_project.Base.Streams.{skip_spaces, take_word, getline, c_str}
use load_tester_project.Clients.{Call, get, delete, post, put, Client, Reply}

pub record Command : Type 0 where
  pub cmd : Bytes
  pub key : Bytes
  pub value : Bytes

-- `if (!value.empty() && value[0] == ' ') value.erase(0, 1);`
unfoldable pub without_space : Bytes → Bytes
without_space [] = []
without_space (c ∷ s) = if c == b' ' then s else c ∷ s

-- The line that the user has typed.
unfoldable pub parse_line : Bytes → Command
unfolding skip_spaces take_word getline without_space
parse_line user_input =
    let cmd = take_word (skip_spaces user_input) in
    let s = skip_spaces (drop (length cmd) (skip_spaces user_input)) in
    let key = take_word s in
    let (value, _) = getline b'\n' (drop (length key) s) in
    record { cmd = cmd; key = key; value = without_space value }

unfoldable pub no_text : Bytes → Bool
no_text [] = true
no_text (c ∷ s) = false

-- What a command leads to: a request, or a message.
pub data Action : Type 0 where
  requests : Call → Action
  says : Bytes → Action

unfoldable pub action_of : Command → Action
unfolding no_text
action_of c =
    if str_eq c.cmd (codes "create")
    then (if no_text c.key || no_text c.value
        then says (codes "Usage: create <key> <value>\n")
        else requests (post (codes "/kvstore/create") (c.key ++ (codes " " ++ c.value))))
    else if str_eq c.cmd (codes "delete")
    then (if no_text c.key
        then says (codes "Usage: delete <key>\n")
        else requests (delete (c_str (codes "/kvstore/" ++ c.key))))
    else if str_eq c.cmd (codes "read")
    then (if no_text c.key
        then says (codes "Usage: read <key>\n")
        else requests (get (c_str (codes "/kvstore/" ++ c.key))))
    else if str_eq c.cmd (codes "update")
    then (if no_text c.key || no_text c.value
        then says (codes "Usage: update <key> <value>\n")
        else requests (put (c_str (codes "/kvstore/" ++ c.key)) c.value))
    else says (codes "Unknown command. Use create/read/update/delete/exit.\n")

-- What is printed for the result of a request.
unfoldable pub message : Option Reply → Bytes
message none = codes "Request failed\n"
message (some r) = codes "Server replied: " ++ (r.body ++ codes "\n")

-- `std::getline(std::cin, user_input)`, if every line of the input is ended by a line end: at the end
-- of the input it leaves an empty line.
unfoldable pub next_line : List Bytes → Bytes × List Bytes
next_line [] = ([], [])
next_line (line ∷ lines) = (line, lines)

module _ (c : Client) where
  -- What the loop does with a command.
  unfoldable pub perform : Action → c.Net → Bytes × c.Net
  unfolding message
  perform (says text) net = (text, net)
  perform (requests call) net = let (res, net') = c.send call net in (message res, net')

  -- `main`: what is printed, in order, for the lines of the input.
  unfoldable pub run : ℕ → List Bytes → c.Net → Result (List Bytes × c.Net)
  unfolding next_line parse_line action_of perform
  run zero lines net = throw out_of_fuel
  run (suc fuel) lines net =
      let (user_input, rest) = next_line lines in
      elim (str_eq user_input (codes "exit")) [
        | true ↦ ok ([], net)
        | false ↦
            let (text, net') = perform (action_of (parse_line user_input)) net in
            do r ← run fuel rest net'; ok (text ∷ r.0, r.1)
      ]
