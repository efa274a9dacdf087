-- ===== src/Logging/Service.antt =====
-- internal/logging/service.go: the handlers. None of them has an error.
use blitzy_localgcp.Base.{
  List, [], ◌∷◌, map, Option, none, some, Str, str_eq, Dict, if◌then◌else◌, ℤ,
}
use blitzy_localgcp.Logging.Data.{MonitoredResource, LogEntry, Store}
use blitzy_localgcp.Logging.{write, list, list_logs, delete_log}

pub record WriteLogEntriesRequest : Type 0 where
  pub entries : List LogEntry
  pub log_name : Str
  pub resource : Option MonitoredResource
  pub labels : Dict Str

unfoldable pub resource_or :
    Option MonitoredResource → Option MonitoredResource → Option MonitoredResource
resource_or none default = default
resource_or (some resource) default = some resource

unfoldable pub labels_or : Dict Str → Dict Str → Dict Str
labels_or [] default = default
labels_or (l ∷ labels) default = l ∷ labels

-- An entry takes from the request what it leaves out; an empty default is no default.
unfoldable pub with_defaults : WriteLogEntriesRequest → LogEntry → LogEntry
unfolding resource_or labels_or
with_defaults req entry = record entry {
  log_name = if str_eq entry.log_name [] then req.log_name else entry.log_name;
  resource = resource_or entry.resource req.resource;
  labels = labels_or entry.labels req.labels;
}

unfoldable pub write_log_entries : Store → WriteLogEntriesRequest → Store
unfolding with_defaults write
write_log_entries s req = write s (map (with_defaults req) req.entries)

unfoldable pub list_log_entries : Store → List Str → Str → ℤ → List LogEntry
unfolding list
list_log_entries s resource_names filter page_size = list s resource_names filter page_size

unfoldable pub list_logs_of : Store → Str → List Str
unfolding list_logs
list_logs_of s parent = list_logs s parent

unfoldable pub delete_log_of : Store → Str → Store
unfolding delete_log
delete_log_of s log_name = delete_log s log_name
