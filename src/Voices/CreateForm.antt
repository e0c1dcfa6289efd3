-- ===== src/Voices/CreateForm.antt =====
-- The form for a new voice, `VoiceCreateForm` of
-- web/src/modules/voices/components/voice-create-form.tsx: its schema and its submission.
pub mod Reasons
pub mod Submission
use go_grpc_microservices.Prelude.{
  ℕ, ◌≡◌, ◌⊎◌, inl, inr, refl, String, Bool, true, false, Option, none, some, List, [], ◌∷◌,
  if◌then◌else◌, arith, Bool-cases, Option-cases,
}
use go_grpc_microservices.Async.{Settled, resolved, rejected, Async, ◌>>=◌, Settled-cases}
use go_grpc_microservices.Text.{is_empty}
use go_grpc_microservices.Toasts.{Toast}
use go_grpc_microservices.Voices.Mutations.{
  CreateVoiceInput, VoiceRequest, Voice, VoiceReply, Client, create,
}

-- A file that was chosen or recorded: its type, and what reading it yields.
pub record File : Type 0 where
  pub media : String
  pub array_buffer : Settled (List ℕ)

pub record FormValues : Type 0 where
  pub name : String
  pub file : Option File
  pub category : String
  pub variant : String
  pub language : String
  pub description : String

-- `defaultValues`
abbrev pub default_values : FormValues
default_values = record {
  name = "";
  file = none;
  category = "GENERAL";
  variant = "NEUTRAL";
  language = "en-US";
  description = "";
}

abbrev has_file : Option File → Bool
has_file none = false
has_file (some f) = true

-- `voiceCreateFormSchema`
unfoldable pub is_complete : FormValues → Bool
is_complete v =
    if is_empty v.name
    then false
    else if is_empty v.category
    then false
    else if is_empty v.language
    then false
    else if is_empty v.variant
    then false
    else has_file v.file

-- The form, with the client behind its mutation, the messages shown and those that its `onError`
-- was called with, newest first.
pub record VoiceCreateForm : Type 0 where
  pub values : FormValues
  pub client : Client
  pub toasts : List Toast
  pub errors : List String

-- `a || undefined`
abbrev or_none : String → Option String
or_none s = if is_empty s then none else some s

abbrev pub create_input : FormValues → File → List ℕ → CreateVoiceInput
create_input v f audio_data = record {
  name = v.name;
  audio_data = audio_data;
  content_type = some (if is_empty f.media then "audio/wav" else f.media);
  category = v.category;
  variant = v.variant;
  language = v.language;
  description = or_none v.description;
}

abbrev read : File → Async Client (List ℕ)
read f c = (f.array_buffer, c)

module _ (service : VoiceRequest → VoiceReply) (token : Option String) (has_on_error : Bool) where
  -- The calls of the `try`, for the values and their file
  unfoldable pub try_create : FormValues → File → Async Client Voice
  try_create v f = read f >>= (λ audio_data. create service token (create_input v f audio_data))

  -- The rest of the `try`, and the `catch`
  abbrev pub conclude : Settled Voice × Client → VoiceCreateForm → VoiceCreateForm
  conclude (resolved w, c) s = record s {
    client = c;
    toasts = Toast.success "Voice created successfully!" ∷ s.toasts;
    values = default_values;
  }
  conclude (rejected message, c) s = elim has_on_error [
    | true ↦ record s { client = c; errors = message ∷ s.errors }
    | false ↦ record s { client = c; toasts = Toast.error message ∷ s.toasts }
  ]

  -- `form.handleSubmit`: a form that is not valid is not submitted.
  unfoldable pub submit_voice : VoiceCreateForm → VoiceCreateForm
  submit_voice s =
      if is_complete s.values
      then elim s.values.file [ none ↦ s | some f ↦ conclude (try_create s.values f s.client) s ]
      else s
