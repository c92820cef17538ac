-- ===== src/Tests/Uploads.antt =====
-- Runs of services/document_service.py, chunking.py and url_fetcher.py, and of core/rate_limit.py.
use knowledgeos.Retrieval.Query.{codes}
use knowledgeos.Tests.{ascii}
use knowledgeos.Tests.Turns.{document}
use knowledgeos.Ingestion.{ParsedDocument, TextChunk, returned}
use knowledgeos.Prelude.{
  ◌+◌, ◌*◌, ◌≤◌, ◌≡◌, refl, ◌⊎◌, true, false, none, some, List, [], ◌∷◌, arith, leb, if◌then◌else◌,
  length, All, Any,
}
use knowledgeos.Text.{Text}
use knowledgeos.Errors.{AppError, ok, err}
use knowledgeos.Chunking.Split.{newline, pieces_of, paragraphs}
use knowledgeos.Chunking.Pack.{pack_windows, split_page}
use knowledgeos.Chunking.Absorb.{not_empty, absorb_fragments}
use knowledgeos.Chunking.Document.{chunk_document}
use knowledgeos.Chunking.Ink.{ink, ink_all}
use knowledgeos.Chunking.Kept.{ink-split_page}
use knowledgeos.Chunking.Fragments.{IsLarge, absorb_fragments-Kept}
use knowledgeos.Chunking.Bounds.{IsWithin, split_page-All}
use knowledgeos.Chunking.Numbered.{IsNumbered, IsOfPage, chunk_document-IsNumbered}
use knowledgeos.Limits.{too_many, check_rate_limit}
use knowledgeos.Limits.Window.{recent, after_calls, check_rate_limit-recent}
use knowledgeos.Content.{SourceType}
use knowledgeos.Fetching.{Net, Response, fetch, max_redirects, FetchedResource}
use knowledgeos.Fetching.Vetted.{IsVetted, IsDelivered, fetch-IsDelivered}
use knowledgeos.Intake.{
  Platform, Upload, Store, IntakeResult, intake_bytes, place, new_document, new_key, queue_job,
  find_duplicate,
}
use knowledgeos.Intake.Unique.{IsUnique, again, intake_bytes-again}

-- A page of two paragraphs, the second longer than a chunk of 12 characters.
abbrev page : Text
page = codes "Leave\n\nYou have 25 days. Ask us first."

is_space_newline : ascii.is_space newline ≡ true
is_space_newline = refl

ink-split_page_example : ink_all ascii (split_page ascii 12 0 page) ≡ ink ascii page
ink-split_page_example = ink-split_page ascii is_space_newline 12 page (omega arith)

split_page-All_example :
    All (IsWithin 12) (pack_windows 12 [] (pieces_of ascii 12 (paragraphs ascii page)) 0)
    × All (IsWithin (12 + 4 + 2)) (split_page ascii 12 4 page)
split_page-All_example = split_page-All ascii 12 4 page

abbrev fragments : List Text
fragments = codes "Leave" ∷ page ∷ page ∷ []

absorb_fragments-Kept_example :
    ((absorb_fragments ascii 100 fragments ≡ [])
      ⊎ (ink_all ascii (absorb_fragments ascii 100 fragments) ≡ ink_all ascii fragments))
    × (All IsLarge (absorb_fragments ascii 100 fragments)
        ⊎ ((w : Text) × (not_empty fragments ≡ w ∷ [])
            × (absorb_fragments ascii 100 fragments ≡ w ∷ [])))
    × ((w : Text) → not_empty fragments ≡ w ∷ [] → absorb_fragments ascii 100 fragments ≡ w ∷ [])
absorb_fragments-Kept_example = absorb_fragments-Kept ascii is_space_newline 100 fragments

abbrev parsed : ParsedDocument
parsed = record { pages = record { number = 3; text = page; section = none } ∷ []; title = none }

chunk_document-IsNumbered_example :
    (cs : List TextChunk) × (chunk_document ascii 1200 150 none (some 0) parsed ≡ returned cs)
    × IsNumbered 0 cs
    × All (λ c. Any (IsOfPage c) parsed.pages) cs
chunk_document-IsNumbered_example =
    chunk_document-IsNumbered ascii 1200 150 none (some 0) parsed (omega arith)

check_rate_limit-recent_example :
    (check_rate_limit true 2 60 70000 (after_calls 2 60 (65000 ∷ 60000 ∷ 5000 ∷ []))).0 ≡ (
      if leb 2 (recent (60 * 1000) 70000 (65000 ∷ 60000 ∷ 5000 ∷ []))
      then err (too_many 2 60)
      else ok tt)
check_rate_limit-recent_example =
    check_rate_limit-recent 2 60 70000 (65000 ∷ 60000 ∷ 5000 ∷ [])
      (omega arith, (omega arith, (omega arith, tt)))

-- A network where every name resolves, and where each URL answers with a page.
abbrev page_response : Response
page_response = record {
  is_redirect = false;
  location = none;
  status_code = 200;
  content_type = some (codes "text/html; charset=utf-8");
  content = page;
}

abbrev pub net : Net
net = record {
  urlparse = λ url. record { scheme = codes "https"; hostname = some (codes "a.b"); port = none };
  getaddrinfo = λ host port. some (codes "1.1.1.1" ∷ []);
  ip_address = λ a. record {
    is_private = false;
    is_loopback = false;
    is_link_local = false;
    is_reserved = false;
    is_multicast = false;
    is_unspecified = false;
  };
  first = λ addresses. codes "1.1.1.1";
  get = λ url. returned page_response;
  join_url = λ base location. location;
}

abbrev pub link : Text
link = codes "https://a.b/"

fetch-IsDelivered_example :
    All (IsVetted net) (fetch ascii net link).1
    × (length (fetch ascii net link).1 ≤ max_redirects + 1)
    × (((e : AppError) × ((fetch ascii net link).0 ≡ err e))
        ⊎ ((f : FetchedResource) × ((fetch ascii net link).0 ≡ ok f) × IsDelivered net ascii f))
fetch-IsDelivered_example = fetch-IsDelivered net ascii link

abbrev pub platform : Platform
platform = record {
  unicode = ascii;
  sha256 = length;
  is_utf8 = λ bytes. true;
  show_id = λ id. (b'0' + id) ∷ [];
  max_upload_bytes = 1000;
  put = ok tt;
  push = ok tt;
}

abbrev upload : Upload
upload = record {
  workspace_id = 1;
  uploaded_by = 1;
  bytes = page;
  filename = some (codes "notes.md");
  source_type = none;
  source_uri = none;
  title = none;
  mime_type = none;
  document_id = 4;
  job_id = 5;
}

abbrev pub store : Store
store = record {
  documents = document ∷ [];
  jobs = [];
  keys = [];
  queue = record { pending = []; processing = []; heartbeat = [] };
}

abbrev placed : IntakeResult × Store
placed = (
  record { document = new_document platform upload SourceType.markdown; duplicate = false },
  queue_job 5 4 (record store {
    documents = document ∷ new_document platform upload SourceType.markdown ∷ [];
    keys = new_key platform upload ∷ [];
  }),
)

no_other : IsUnique store.documents
unfolding find_duplicate
no_other = (refl, tt)

taken : intake_bytes platform upload store ≡ (ok placed.0, placed.1)
unfolding intake_bytes place queue_job
taken = refl

intake_bytes-again_example :
    IsUnique placed.1.documents
    × (intake_bytes platform (again platform upload 6 7) placed.1
        ≡ (ok (record { document = placed.0.document; duplicate = true }), placed.1))
intake_bytes-again_example =
    intake_bytes-again platform upload store placed.1 placed.0 6 7 no_other (refl, tt) taken
