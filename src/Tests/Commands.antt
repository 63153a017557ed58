-- ===== src/Tests/Commands.antt =====
-- Commands: what a client builds and what the broker extracts.
use ikp_projekat.Common.{ℕ, ◌≡◌, some, none, List, [], ◌∷◌, ◌++◌, arith, ◌>>=◌, drop}
use ikp_projekat.Memory.{hashtag}
use ikp_projekat.Memory.Text.{Avoids, terminated}
use ikp_projekat.Client.Command.{create_command}
use ikp_projekat.Client.Command.Bytes.{
  create_command-publish, create_command-plain, publish_text, plain_text,
}
use ikp_projekat.Broker.Parsing.{extract_for_publish, extract_topic_name, notify_stats_manager}
use ikp_projekat.Broker.Parsing.Notify.{notify-publish}
use ikp_projekat.Protocol.{
  received, extract_topic_name-create_command, extract_for_publish-create_command,
}

abbrev news : List ℕ
news = b'n' ∷ b'e' ∷ b'w' ∷ b's' ∷ []

abbrev hello : List ℕ
hello = b'h' ∷ b'i' ∷ []

abbrev garbage : ℕ → ℕ
garbage i = 7

abbrev later_garbage : ℕ → ℕ → ℕ
later_garbage k i = 9

news-clean : Avoids 0 news
news-clean = omega arith

news-plain : Avoids hashtag news
news-plain = omega arith

hello-clean : Avoids 0 hello
hello-clean = omega arith

create_command-publish_example :
    create_command garbage b'2' (terminated news []) (some (terminated hello (5 ∷ [])))
    ≡ some (terminated (publish_text news hello) [])
create_command-publish_example =
    create_command-publish garbage news [] news-clean hello (5 ∷ []) hello-clean

create_command-plain_example :
    create_command garbage b'3' (terminated news []) none
    ≡ some (terminated (plain_text b'3' news) [])
create_command-plain_example =
    create_command-plain garbage news [] news-clean b'3' (λ e. omega arith)

extract_topic_name-create_command_example :
    (do
      command ← create_command garbage b'6' (terminated news []) none
      extract_topic_name later_garbage (drop 1 (received command (0 ∷ 0 ∷ []))))
    ≡ some (terminated news [])
extract_topic_name-create_command_example =
    extract_topic_name-create_command garbage later_garbage news [] (0 ∷ 0 ∷ []) news-clean b'6'
      (λ e. omega arith) (λ e. omega arith)

extract_for_publish-create_command_example :
    (do
      command ← create_command garbage b'2' (terminated news []) (some (terminated hello []))
      extract_for_publish later_garbage (drop 1 (received command (0 ∷ []))))
    ≡ some (terminated news [], terminated (hashtag ∷ hello) [])
extract_for_publish-create_command_example =
    extract_for_publish-create_command garbage later_garbage news [] (0 ∷ []) news-clean hello []
      hello-clean news-plain

notify-publish_example :
    notify_stats_manager later_garbage
      (hashtag ∷ b'2' ∷ hashtag ∷ (news ++ hashtag ∷ terminated hello (0 ∷ [])))
    ≡ some (terminated (hashtag ∷ b'2' ∷ hashtag ∷ news) [])
notify-publish_example = notify-publish later_garbage news (0 ∷ []) news-clean hello news-plain
