-- ===== src/Runtime/Defs.antt =====
-- The state outside the program and the calls that read or change it: `os`, `os/exec`, `net/http`,
-- `time` and `crypto/rand` as internal/*/util.go and internal/controller use them.
use monitoring_wo_webhooks.Prelude.{
  ℕ, ◌+◌, String, Bool, true, false, Option, none, some, List, ◌∷◌, ◌==◌, if◌then◌else◌,
}
use monitoring_wo_webhooks.Prelude.Int.{ℤ}
use monitoring_wo_webhooks.Prelude.Text.{hex, take, drop}

-- Go's `(value, error)`, where a value that comes with an error is not used.
pub data Fallible {ℓ} (A : Type ℓ) : Type ℓ where
  ok : A → Fallible A
  err : String → Fallible A

-- A Go `map[string]string`. The key written last stands first.
abbrev pub Dict : Type 0
Dict = List (String × String)

-- One HTTP request, with whether its client skips the verification of certificates.
pub record Request : Type 0 where
  pub method : String
  pub url : String
  pub query : Dict
  pub headers : Dict
  pub body : Dict
  pub skip_verify : Bool

pub data Response : Type 0 where
  no_answer : String → Response
  -- the status code, and the body or the error of reading it
  answer : ℕ → Fallible String → Response

-- What the program did to the outside.
pub data Event : Type 0 where
  -- a command under /bin/bash -c
  ran : String → Event
  requested : Request → Event
  wrote : String → String → Event
  truncated removed : String → Event
  -- a Kubernetes event: its type and message
  recorded : String → String → Event
  -- the update of the status subresource
  updated : Event

-- The log has the latest event first. The clock and the random source are read by counting.
pub record World : Type 0 where
  pub files : String → Option String
  pub log : List Event
  pub ticks : ℕ

-- The answers from outside. They may depend on all that was done before.
pub record Outside : Type 0 where
  -- nanoseconds, at each reading of the clock
  pub now : ℕ → ℤ
  pub show_time : ℤ → String
  pub random : ℕ → ℕ → List ℕ
  pub command_fails : List Event → String → Bool
  pub read_fails : List Event → String → Bool
  pub write_fails : List Event → String → Bool
  pub remove_fails : List Event → String → Bool
  -- the error of `http.NewRequest`, by method and URL
  pub request_error : String → String → Option String
  pub response : List Event → Request → Response
  -- `json.Unmarshal` of a response, and its field `TTNumber`
  pub ticket : String → Fallible String
  pub base64 : String → String
  -- k8s.io/utils/strings/slices
  pub contains : List String → String → Bool
  pub index : List String → String → ℤ
  -- the error of the update of the status, if any
  pub update_error : List Event → Option String
  -- `utilerrors.NewAggregate`
  pub aggregate : List (Option String) → Option String
  -- how a `types.NamespacedName` prints, by namespace and name
  pub namespaced_name : String → String → String

module _ (o : Outside) where
  -- `time.Now()`
  unfoldable pub now : World → ℤ × World
  now w = (o.now w.ticks, record w { ticks = w.ticks + 1 })

  -- `randomString`: two bytes more than asked for, as hexadecimal digits, from the third on.
  unfoldable pub random_string : ℕ → World → String × World
  random_string n w =
      (take n (drop 2 (hex (o.random w.ticks (n + 2)))), record w { ticks = w.ticks + 1 })

  -- `exec.Command("/bin/bash", "-c", command).Run() != nil`
  unfoldable pub run_fails : String → World → Bool × World
  run_fails command w = (o.command_fails w.log command, record w { log = ran command ∷ w.log })

  -- `ReadFile`
  unfoldable pub read_file : String → World → Fallible String
  read_file name w = elim (w.files name) [
    | none ↦ err "no such file or directory"
    | some text ↦ if o.read_fails w.log name then err "input/output error" else ok text
  ]

  -- `writeFile`, with whether it failed. A failed write leaves the file as it was.
  unfoldable pub write_file : String → String → World → Bool × World
  write_file name text w = if o.write_fails w.log name then (true, w) else (
    false,
    record w {
      files = λ f. if f == name then some text else w.files f;
      log = wrote name text ∷ w.log;
    },
  )

  -- `os.Remove`, whose error the program ignores.
  unfoldable pub remove_file : String → World → World
  remove_file name w = if o.remove_fails w.log name then w else record w {
    files = λ f. if f == name then none else w.files f;
    log = removed name ∷ w.log;
  }

  -- `client.Do`
  unfoldable pub send : Request → World → Response × World
  send r w = (o.response w.log r, record w { log = requested r ∷ w.log })

-- `os.IsNotExist` of the error of `os.Stat`.
unfoldable pub is_missing : String → World → Bool
is_missing name w = elim (w.files name) [ none ↦ true | some text ↦ false ]

-- `os.Truncate(name, 0)` of a file that is there.
unfoldable pub truncate_file : String → World → World
truncate_file name w = record w {
  files = λ f. if f == name then some "" else w.files f;
  log = truncated name ∷ w.log;
}

-- The text of a file, which is empty if it cannot be read: `data, _ := ReadFile(name)`.
abbrev pub text_of : Fallible String → String
text_of (ok text) = text
text_of (err e) = ""
