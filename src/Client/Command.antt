-- ===== src/Client/Command.antt =====
-- client.c: build_command_string against the memory that it asks for.
use task_spooler.Base.{◌≡◌, refl, ◌+◌, List, [], ◌∷◌, ◌++◌, length, length-append, arith}
use task_spooler.Base.Run.{ok}
use task_spooler.State.{Text}
use task_spooler.Client.Queue.{command_size, append_arguments, build_command_string}

length-append_arguments :
    (text : Text) (rest : List Text)
    → length (append_arguments text rest) ≡ length text + command_size rest
unfolding append_arguments command_size
length-append_arguments text [] = omega arith
length-append_arguments text (a ∷ rest) =
    omega (arith, length-append_arguments (text ++ b' ' ∷ a) rest, length-append text (b' ' ∷ a))

build_command_string-fits :
    (a : Text) (rest : List Text)
    → (text : Text) × ((build_command_string (a ∷ rest) ≡ ok text)
        × (length text + 1 ≡ command_size (a ∷ rest)))
unfolding build_command_string command_size
build_command_string-fits a rest =
    (append_arguments a rest, (refl, omega (arith, length-append_arguments a rest)))
