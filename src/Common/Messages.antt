-- ===== src/Common/Messages.antt =====
-- internal/common/messages.go: the replies of a command.
use chremoas_ng.Base.{Option, none, some, List, [], ◌∷◌, ◌++◌}
use chremoas_ng.Base.Text.{Str, lit}
use chremoas_ng.World.{MessageSend, content}

-- The mention before a message, if there is a sender.
mention : Str → Str
mention [] = []
mention (c ∷ s) = lit "<@" ++ (c ∷ s ++ lit "> ")

unfoldable pub make_string : Str → Str → Str → Str
unfolding mention
make_string message sender sign = mention sender ++ (lit " " ++ (sign ++ (lit " " ++ message)))

sender_or_empty : Option Str → Str
sender_or_empty none = []
sender_or_empty (some s) = s

unfoldable pub send_success : Option Str → Str → List MessageSend
unfolding make_string sender_or_empty
send_success sender message =
    content (make_string message (sender_or_empty sender) (lit ":white_check_mark:")) ∷ []

unfoldable pub send_error : Option Str → Str → List MessageSend
unfolding make_string sender_or_empty
send_error sender message =
    content (make_string message (sender_or_empty sender) (lit ":warning:")) ∷ []

unfoldable pub send_fatal : Option Str → Str → List MessageSend
unfolding make_string sender_or_empty
send_fatal sender message =
    content (make_string message (sender_or_empty sender) (lit ":octagonal_sign:")) ∷ []
