-- ===== src/Tools/Schemas/History.antt =====
-- argus/mcp_server/tools/history_tools.py: the descriptions and the input schemas of its tools.
use argus_mcp_server.Dict.{Dict}
use argus_mcp_server.Prelude.{Str, str, ◌++◌, [], ◌∷◌}
use argus_mcp_server.Tools.Schemas.Build.{described, strings, object_with, required}
use argus_mcp_server.Values.{Value}

abbrev pub get_history_schema : Dict Value
get_history_schema =
    object_with
      ((
        str "pv_name",
        described (str "string") (str "The PV to retrieve historical trend data for."),
      )
        ∷ (
          str "start",
          described (str "string") (str "ISO 8601 start time. Defaults to 1 hour ago."),
        )
        ∷ (str "end", described (str "string") (str "ISO 8601 end time. Defaults to now."))
        ∷ [])
      (required (str "pv_name" ∷ []))

abbrev pub get_alarm_history_schema : Dict Value
get_alarm_history_schema =
    object_with
      ((
        str "device_name",
        described (str "string") (str "The device to retrieve recent alarm history for."),
      )
        ∷ [])
      (required (str "device_name" ∷ []))

abbrev pub create_logbook_entry_schema : Dict Value
create_logbook_entry_schema =
    object_with
      ((str "title", described (str "string") (str "Short title for the logbook entry."))
        ∷ (str "text", described (str "string") (str "The entry's body text."))
        ∷ (
          str "logbooks",
          strings (
              str "Which logbook(s) to post to - existing logbook names of this facility's "
              ++ str "Olog, which differ between facilities (don't assume 'Operations'). At least "
              ++ str "one required. If a name is wrong, the error lists the valid ones."),
        )
        ∷ (
          str "tags",
          strings (
              str "Optional tags, e.g. ['alarm'] or ['maintenance'] — used by "
              ++ str "get_alarm_history/get_maintenance_history filtering."),
        )
        ∷ [])
      (required (str "title" ∷ str "text" ∷ str "logbooks" ∷ []))

abbrev pub get_logbook_entry_schema : Dict Value
get_logbook_entry_schema =
    object_with
      ((
        str "entry_id",
        described (str "string") (
            str "The entry's Olog id (e.g. 1234), or the Knowledge Hub's code for it (e.g. "
            ++ str "OLOG-SPARC-1234, as search_documentation and get_alarm_history show it)."),
      )
        ∷ [])
      (required (str "entry_id" ∷ []))

abbrev pub update_logbook_entry_schema : Dict Value
update_logbook_entry_schema =
    object_with
      ((
        str "entry_id",
        described (str "string") (
            str "The entry's Olog id (e.g. 1234), or the Knowledge Hub's code for it (e.g. "
            ++ str "OLOG-SPARC-1234, as search_documentation and get_alarm_history show it)."),
      )
        ∷ (str "title", described (str "string") (str "New title. Omit to keep the current one."))
        ∷ (
          str "text",
          described (str "string") (
              str "New full text, replacing the current text. Omit to keep it. To add to an "
              ++ str "entry, read it first with get_logbook_entry and send the old text plus the "
              ++ str "addition."),
        )
        ∷ (
          str "logbooks",
          strings (str "New full list of logbooks. Omit to keep the current ones."),
        )
        ∷ (str "tags", strings (str "New full list of tags. Omit to keep the current ones."))
        ∷ [])
      (required (str "entry_id" ∷ []))

abbrev pub get_history_description : Str
get_history_description =
    str "Get historical trend data for a PV over a time range (from the Archiver "
    ++ str "Appliance)."

abbrev pub get_alarm_history_description : Str
get_alarm_history_description = str "Get recent alarm-tagged logbook entries for a device."

abbrev pub create_logbook_entry_description : Str
create_logbook_entry_description =
    str "WRITES: posts a NEW, permanent entry to the operations logbook, under the "
    ++ str "user's own name when they are signed in (e.g. to record an observation, an "
    ++ str "action taken, or a handover note). Use it only when the user explicitly "
    ++ str "asks to log/record/note something - never to read, list or search the "
    ++ str "logbook, never as a test, never as a side effect of an unrelated question. "
    ++ str "To change an existing entry use update_logbook_entry instead. Tag with "
    ++ str "'alarm' or 'maintenance' if relevant so it surfaces in "
    ++ str "get_alarm_history/get_maintenance_history later."

abbrev pub get_logbook_entry_description : Str
get_logbook_entry_description =
    str "Read ONE logbook entry by id straight from Olog (title, text, logbooks, "
    ++ str "tags, author, date) - typically before changing it with "
    ++ str "update_logbook_entry. Read-only. To find entries, use get_alarm_history or "
    ++ str "search_documentation (on a Knowledge Hub server, logbook entries are "
    ++ str "documents with codes like OLOG-SPARC-1234)."

abbrev pub update_logbook_entry_description : Str
update_logbook_entry_description =
    str "WRITES: changes an EXISTING logbook entry (title, text, logbooks or tags), "
    ++ str "under the user's own name; Olog keeps the previous version as history. Use "
    ++ str "it only when the user explicitly asks to correct or amend an entry. Read "
    ++ str "the entry first with get_logbook_entry; text replaces the whole text, so to "
    ++ str "add something send the old text plus the addition. Never use it to read."
